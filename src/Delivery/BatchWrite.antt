-- ===== src/Delivery/BatchWrite.antt =====
-- core/runtime/_delivery_batch_write.py and `DeliveryEngine.write_batch_result`: what the batch lane
-- does with the result of a whole batch.
use agora_etl.Prelude.{
  ℕ, ◌+◌, ◌-◌, Bool, true, ◌&&◌, ◌||◌, Option, none, some, List, [], ◌∷◌, ◌++◌, map, length,
  if◌then◌else◌,
}
use agora_etl.Failures.{Exc, fence_lost_error, value_error, record_delivery_error, Result, ok, err}
use agora_etl.Delivery.Types.{
  Value, CheckpointValue, Callback, is_log_and_continue, WriteResult, BatchFailure, CommitOutcome,
  dropped,
}
use agora_etl.Delivery.World.{Engine}
use agora_etl.Delivery.Exec.{Exec, pure, raise, attempt, skip, ◌>>=◌, ◌>>◌}
use agora_etl.Delivery.Calls.{on_metrics, write_batch, success_hook_for, run_callback}
use agora_etl.Delivery.Checkpoints.{save_batch}
use agora_etl.Delivery.Dlq.{DlqRequest, write_to_dlq}
use agora_etl.Delivery.Results.{sink_request, resolve, validate_write_result_count}
use agora_etl.Delivery.Batching.{commit_outcomes}
use agora_etl.Delivery.Engine.{is_some}

-- A record that goes on to the sink, with its raw record.
pub record Active : Type 0 where
  pub raw : Value
  pub processed : Value

-- `results is raw_batch`, or a list of results of its own.
pub data BatchResults : Type 0 where
  passthrough : BatchResults
  filtered : List (Option Value) → BatchResults

abbrev pub batch_request : BatchFailure → CheckpointValue → Value → DlqRequest
batch_request f c v = record {
  stage = "batch_middleware";
  exception = f.exception;
  body = some v;
  original_record = some v;
  processed_record = none;
  source = none;
  checkpoint = c;
  middleware = some f.middleware;
}

abbrev pub itself : Value → Active
itself v = record { raw = v; processed = v }

abbrev pub processed_values : List Active → List Value
processed_values = map (λ a. a.processed)

-- The pairs of `zip(raw_batch, results, strict=True)`; `none` where it raises.
unfoldable pub zip_strict : List Value → List (Option Value) → Option (List (Value × Option Value))
zip_strict [] [] = some []
zip_strict (v ∷ vs) (r ∷ rs) = elim (zip_strict vs rs) [
  | none ↦ none
  | some ps ↦ some ((v, r) ∷ ps)
]
zip_strict _ _ = none

unfoldable pub active_items : List (Value × Option Value) → List Active
active_items [] = []
active_items ((v, none) ∷ ps) = active_items ps
active_items ((v, some r) ∷ ps) = record { raw = v; processed = r } ∷ active_items ps

unfoldable pub dropped_records : List (Value × Option Value) → List Value
dropped_records [] = []
dropped_records ((v, none) ∷ ps) = v ∷ dropped_records ps
dropped_records ((v, some r) ∷ ps) = dropped_records ps

unfoldable pub pop_dropped_hooks : List Value → Exec (List Callback)
pop_dropped_hooks [] = pure []
pop_dropped_hooks (v ∷ vs) = do
  hook ← success_hook_for v none none
  hooks ← pop_dropped_hooks vs
  pure (hook ∷ hooks)

module _ (g : Engine) where
  abbrev pub count_batch_errored : ℕ → Exec (Unit {0})
  count_batch_errored n = on_metrics (λ m. record m { records_errored = m.records_errored + n })

  unfoldable pub route_batch_failure :
      BatchFailure → CheckpointValue → Bool → List Value → Exec Bool
  route_batch_failure f c routed [] = pure routed
  route_batch_failure f c routed (v ∷ vs) = do
    sent ← write_to_dlq g (batch_request f c v)
    route_batch_failure f c (routed && sent) vs

  -- With a DLQ that did not take every record, and FAIL_CLOSED, this returns and raises nothing.
  unfoldable pub write_batch_middleware_failure :
      List Value → CheckpointValue → BatchFailure → Exec (Unit {0})
  write_batch_middleware_failure raw_batch c f = do
    count_batch_errored (length raw_batch)
    if is_some g.dlq_sink
        then (do
          routed ← route_batch_failure f c true raw_batch
          if routed || is_log_and_continue g.sink_failure_policy
              then save_batch g c (length raw_batch)
              else skip)
        else (if is_log_and_continue g.sink_failure_policy
            then save_batch g c (length raw_batch)
            else raise (record_delivery_error f.exception))

  unfoldable pub route_active : Exc → CheckpointValue → Bool → List Active → Exec Bool
  route_active e c routed [] = pure routed
  route_active e c routed (a ∷ rest) = do
    sent ← write_to_dlq g (sink_request e a.raw a.processed c)
    route_active e c (routed && sent) rest

  unfoldable pub run_callbacks : List Callback → Exec (Unit {0})
  run_callbacks [] = skip
  run_callbacks (hook ∷ hooks) = do run_callback g hook; run_callbacks hooks

  unfoldable pub run_active_hooks : List Active → Exec (Unit {0})
  run_active_hooks [] = skip
  run_active_hooks (a ∷ rest) = do
    hook ← success_hook_for a.raw (some a.processed) none
    run_callback g hook
    run_active_hooks rest

  -- The whole batch failed at the sink. `size` is what the checkpoint counts.
  abbrev batch_failed : Exc → List Active → List Callback → ℕ → CheckpointValue → Exec (Unit {0})
  batch_failed e items dropped_hooks size c = do
    routed ← route_active e c true items
    count_batch_errored (length items)
    if routed || is_log_and_continue g.sink_failure_policy
        then (do
          save_batch g c size
          run_callbacks dropped_hooks
          if routed then run_active_hooks items else skip)
        else raise (record_delivery_error e)

  unfoldable pub resolve_active :
      CheckpointValue → List Active → List WriteResult → Exec (List CommitOutcome)
  resolve_active c [] [] = pure []
  resolve_active c (a ∷ rest) (r ∷ rs) = do
    hook ← success_hook_for a.raw (some a.processed) none
    o ← resolve g r a.raw a.processed c hook
    os ← resolve_active c rest rs
    pure (o ∷ os)
  resolve_active c _ _ = raise (value_error "zip() arguments differ in length")

  abbrev settle_active :
      Result (List WriteResult)
      → List Active
      → List Callback
      → ℕ
      → CheckpointValue
      → Exec (Unit {0})
  settle_active (ok results) items dropped_hooks size c = do
    validate_write_result_count (length items) (length results)
    outcomes ← resolve_active c items results
    commit_outcomes g (map (dropped c) dropped_hooks ++ outcomes)
  settle_active (err fence_lost_error) items dropped_hooks size c = raise fence_lost_error
  settle_active (err e) items dropped_hooks size c = batch_failed e items dropped_hooks size c

  unfoldable pub write_batch_passthrough : List Value → CheckpointValue → Exec (Unit {0})
  write_batch_passthrough raw_batch c = do
    answer ← attempt (write_batch g raw_batch)
    settle_active answer (map itself raw_batch) [] (length raw_batch) c

  abbrev write_active : List Active → List Callback → ℕ → CheckpointValue → Exec (Unit {0})
  write_active [] dropped_hooks size c = do save_batch g c size; run_callbacks dropped_hooks
  write_active (a ∷ rest) dropped_hooks size c = do
    answer ← attempt (write_batch g (processed_values (a ∷ rest)))
    settle_active answer (a ∷ rest) dropped_hooks size c

  abbrev write_pairs : Option (List (Value × Option Value)) → ℕ → CheckpointValue → Exec (Unit {0})
  write_pairs none size c = raise (value_error "zip() arguments differ in length")
  write_pairs (some ps) size c = do
    on_metrics
        λ m. record m { records_dropped = m.records_dropped + (size - length (active_items ps)) }
    dropped_hooks ← pop_dropped_hooks (dropped_records ps)
    write_active (active_items ps) dropped_hooks size c

  unfoldable pub write_batch_filtered :
      List (Option Value) → List Value → CheckpointValue → Exec (Unit {0})
  write_batch_filtered results raw_batch c =
      write_pairs (zip_strict raw_batch results) (length results) c

  unfoldable pub write_batch_result :
      BatchResults → List Value → CheckpointValue → Option BatchFailure → Exec (Unit {0})
  write_batch_result results raw_batch c (some f) = write_batch_middleware_failure raw_batch c f
  write_batch_result passthrough raw_batch c none = write_batch_passthrough raw_batch c
  write_batch_result (filtered results) raw_batch c none = write_batch_filtered results raw_batch c
