-- ===== src/Delivery/Engine.antt =====
-- `DeliveryEngine` of core/runtime/_delivery.py, one record at a time and through the buffer of
-- pending writes. The branches of a pending-write owner (a flush interval) are not here.
use agora_etl.Prelude.{
  ℕ, ◌+◌, Bool, true, false, not, ◌&&◌, ◌||◌, Option, none, some, List, [], ◌∷◌, ◌++◌, map, length,
  leb, if◌then◌else◌,
}
use agora_etl.Failures.{Exc, fence_lost_error, value_error, record_delivery_error, Result, ok, err}
use agora_etl.Delivery.Types.{
  Value, CheckpointValue, Callback, is_log_and_continue, WriteResult, write_ok, MiddlewareFailure,
  PendingWrite, CommitOutcome,
}
use agora_etl.Delivery.World.{Engine}
use agora_etl.Delivery.Exec.{Exec, pure, raise, attempt, modify, gets, skip, ◌>>=◌, ◌>>◌}
use agora_etl.Delivery.Calls.{
  on_metrics, write_one, write_batch, success_hook_for, run_callback, discard_success_hooks,
}
use agora_etl.Delivery.Checkpoints.{prepare, save}
use agora_etl.Delivery.Dlq.{DlqRequest, write_to_dlq}
use agora_etl.Delivery.Results.{
  count_dropped, count_errored, sink_request, resolve, acknowledge, commit_outcome,
  validate_write_result_count,
}
use agora_etl.Delivery.Batching.{
  Gathered, nothing, with_checkpoint, with_callback, apply_gathered, flush_batch_outcomes,
  commit_outcomes,
}

abbrev pub is_some {ℓ} : {A : Type ℓ} → Option A → Bool
is_some none = false
is_some (some a) = true

abbrev pub failure_request : MiddlewareFailure → CheckpointValue → DlqRequest
failure_request f c = record {
  stage = f.stage;
  exception = f.exception;
  body = some f.subject;
  original_record = some f.subject;
  processed_record = none;
  source = none;
  checkpoint = c;
  middleware = some f.middleware;
}

abbrev pub drop_hook : Option Value → Option MiddlewareFailure → Callback → Exec Callback
drop_hook (some v) f on_success = success_hook_for v none on_success
drop_hook none (some f) on_success = success_hook_for f.subject none on_success
drop_hook none none on_success = pure on_success

abbrev pub all_ok : List WriteResult → Bool
all_ok [] = true
all_ok (r ∷ rs) = write_ok r && all_ok rs

abbrev pub processed_of : List PendingWrite → List Value
processed_of = map (λ p. p.processed)

module _ (g : Engine) where
  -- A failure that has a DLQ and did not get there.
  abbrev pub unrouted_failure : MiddlewareFailure → CheckpointValue → Exec (Unit {0})
  unrouted_failure f c = do
    discard_success_hooks g (f.subject ∷ [])
    if is_some g.checkpoint_store && is_some c
        then raise (record_delivery_error f.exception)
        else skip

  abbrev pub settle_drop : CheckpointValue → Option MiddlewareFailure → Callback → Exec (Unit {0})
  settle_drop c none hook = do on_metrics count_dropped; acknowledge g c hook
  settle_drop c (some f) hook = do
    routed ← write_to_dlq g (failure_request f c)
    on_metrics count_errored
    if is_some g.dlq_sink && not routed then unrouted_failure f c else acknowledge g c hook

  unfoldable pub drop_record :
      CheckpointValue → Option MiddlewareFailure → Callback → Option Value → Exec (Unit {0})
  drop_record c failure on_success hook_record = do
    hook ← drop_hook hook_record failure on_success
    settle_drop c failure hook

  abbrev pub after_dlq : Bool → Exc → Value → Value → CheckpointValue → Callback → Exec (Unit {0})
  after_dlq routed e result raw c on_success = do
    on_metrics count_errored
    if routed || is_log_and_continue g.sink_failure_policy
        then (do
          save g c
          if routed
              then (do hook ← success_hook_for raw (some result) on_success; run_callback g hook)
              else discard_success_hooks g (raw ∷ result ∷ []))
        else (do discard_success_hooks g (raw ∷ result ∷ []); raise (record_delivery_error e))

  abbrev pub write_failed : Exc → Value → Value → CheckpointValue → Callback → Exec (Unit {0})
  write_failed e result raw c on_success = do
    routed ← write_to_dlq g (sink_request e raw result c)
    after_dlq routed e result raw c on_success

  abbrev pub settle_write :
      Result WriteResult → Value → Value → CheckpointValue → Callback → Exec (Unit {0})
  settle_write (ok r) result raw c on_success = do
    outcome ← resolve g r raw result c on_success
    commit_outcome g outcome
  settle_write (err fence_lost_error) result raw c on_success = raise fence_lost_error
  settle_write (err e) result raw c on_success = write_failed e result raw c on_success

  unfoldable pub write_processed_record :
      Option Value → Value → CheckpointValue → Option MiddlewareFailure → Callback → Exec (Unit {0})
  write_processed_record none raw c failure on_success = drop_record c failure on_success (some raw)
  write_processed_record (some result) raw c failure on_success = do
    answer ← attempt (write_one g result)
    settle_write answer result raw c on_success

  unfoldable pub gather_successes : Gathered → List PendingWrite → Exec Gathered
  gather_successes a [] = pure a
  gather_successes a (p ∷ ps) = do
    c ← prepare g p.checkpoint
    gather_successes (with_callback p.on_success (with_checkpoint c a)) ps

  unfoldable pub commit_pending_write_success_batch : List PendingWrite → Exec (Unit {0})
  commit_pending_write_success_batch batch = do
    on_metrics (λ m. record m { records_written = m.records_written + length batch })
    a ← gather_successes nothing batch
    apply_gathered g a

  -- `zip(…, strict=True)` raises where the lists differ in length.
  unfoldable pub resolve_all : List PendingWrite → List WriteResult → Exec (List CommitOutcome)
  resolve_all [] [] = pure []
  resolve_all (p ∷ ps) (r ∷ rs) = do
    o ← resolve g r p.raw p.processed p.checkpoint p.on_success
    os ← resolve_all ps rs
    pure (o ∷ os)
  resolve_all _ _ = raise (value_error "zip() arguments differ in length")

  abbrev pub settle_results : List WriteResult → List PendingWrite → Exec (Unit {0})
  settle_results results batch = do
    validate_write_result_count (length batch) (length results)
    if all_ok results
        then commit_pending_write_success_batch batch
        else (do outcomes ← resolve_all batch results; commit_outcomes g outcomes)

  abbrev pub settle_batch : Result (List WriteResult) → List PendingWrite → Exec (Unit {0})
  settle_batch (ok results) batch = settle_results results batch
  settle_batch (err fence_lost_error) batch = raise fence_lost_error
  settle_batch (err e) batch = flush_batch_outcomes g e batch

  abbrev pub flush_batch : List PendingWrite → Exec (Unit {0})
  flush_batch [] = skip
  flush_batch (p ∷ ps) = do
    modify (λ w. record w { pending_writes = [] })
    answer ← attempt (write_batch g (processed_of (p ∷ ps)))
    settle_batch answer (p ∷ ps)

  -- `flush_pending_writes` with no owner task is `_flush_pending_writes_once`.
  unfoldable pub flush_pending_writes : Exec (Unit {0})
  flush_pending_writes w = flush_batch w.pending_writes w

  unfoldable pub queue_success_record :
      Value → Value → CheckpointValue → ℕ → Callback → Exec (Unit {0})
  queue_success_record result raw c writer_batch_size on_success = do
    hook ← success_hook_for raw (some result) on_success
    modify λ w. record w {
      pending_writes =
          w.pending_writes
          ++ record { processed = result; raw = raw; checkpoint = c; on_success = hook } ∷ [];
    }
    count ← gets (λ w. length w.pending_writes)
    if leb writer_batch_size count then flush_pending_writes else skip

  unfoldable pub queue_processed_record :
      Option Value
      → Value
      → CheckpointValue
      → ℕ
      → Option MiddlewareFailure
      → Callback
      → Exec (Unit {0})
  queue_processed_record none raw c size failure on_success =
      drop_record c failure on_success (some raw)
  queue_processed_record (some result) raw c size failure on_success =
      queue_success_record result raw c size on_success

  unfoldable pub dispatch_processed_result :
      Option Value
      → Value
      → CheckpointValue
      → ℕ
      → Option MiddlewareFailure
      → Callback
      → Exec (Unit {0})
  dispatch_processed_result none raw c size failure on_success =
      drop_record c failure on_success (some raw)
  dispatch_processed_result (some result) raw c size failure on_success =
      if leb size 1
      then write_processed_record (some result) raw c failure on_success
      else queue_success_record result raw c size on_success
