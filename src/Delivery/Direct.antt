-- ===== src/Delivery/Direct.antt =====
-- `DeliveryEngine.flush_batch_direct` of core/runtime/_delivery.py: a batch that the linear lane built.
mod Tests
use agora_etl.Prelude.{
  ℕ, ◌+◌, Bool, true, false, ◌&&◌, Option, none, some, List, [], ◌∷◌, ◌++◌, map, length, ◌==◌,
  if◌then◌else◌,
}
use agora_etl.Failures.{Exc, fence_lost_error, runtime_error, Result, ok, err}
use agora_etl.Delivery.Types.{Value, CheckpointValue, Callback, WriteResult, PendingWrite}
use agora_etl.Delivery.World.{World, Engine}
use agora_etl.Delivery.Exec.{Exec, pure, raise, attempt, skip, ◌>>=◌, ◌>>◌}
use agora_etl.Delivery.Calls.{on_metrics, write_batch, success_hook_for, run_callback}
use agora_etl.Delivery.Checkpoints.{save_batch}
use agora_etl.Delivery.Results.{validate_write_result_count}
use agora_etl.Delivery.Batching.{flush_batch_outcomes, commit_outcomes}
use agora_etl.Delivery.Engine.{all_ok, processed_of, resolve_all}

-- The four lists of the call.
pub record DirectBatch : Type 0 where
  pub processed_list : List Value
  pub raw_list : List Value
  pub checkpoint_list : List CheckpointValue
  pub on_success_list : Option (List Callback)

abbrev no_callbacks : List Value → List Callback
no_callbacks [] = []
no_callbacks (v ∷ vs) = none ∷ no_callbacks vs

abbrev callbacks_of : Option (List Callback) → List Value → List Callback
callbacks_of none vs = no_callbacks vs
callbacks_of (some hs) vs = hs

abbrev same_lengths : List Value → List Value → List CheckpointValue → List Callback → Bool
same_lengths processed raw checkpoints callbacks =
    (length processed == length raw)
    && (length raw == length checkpoints)
    && (length checkpoints == length callbacks)

-- `zip`, and the element as a record; the lengths are checked before.
abbrev zip_writes :
    List Value → List Value → List CheckpointValue → List Callback → List PendingWrite
zip_writes (p ∷ ps) (r ∷ rs) (c ∷ cs) (h ∷ hs) =
    record { processed = p; raw = r; checkpoint = c; on_success = h } ∷ zip_writes ps rs cs hs
zip_writes _ _ _ _ = []

-- `_success_hook_for` for each record
unfoldable pub take_hooks : List PendingWrite → Exec (List PendingWrite)
take_hooks [] = pure []
take_hooks (p ∷ ps) = do
  hook ← success_hook_for p.raw (some p.processed) p.on_success
  rest ← take_hooks ps
  pure (record p { on_success = hook } ∷ rest)

abbrev pub last_checkpoint : List PendingWrite → CheckpointValue
last_checkpoint [] = none
last_checkpoint (p ∷ []) = p.checkpoint
last_checkpoint (p ∷ q ∷ ps) = last_checkpoint (q ∷ ps)

module _ (g : Engine) where
  unfoldable pub run_all_callbacks : List PendingWrite → Exec (Unit {0})
  run_all_callbacks [] = skip
  run_all_callbacks (p ∷ ps) = do run_callback g p.on_success; run_all_callbacks ps

  -- With no store or no last checkpoint, `save_batch` does nothing.
  unfoldable pub commit_direct : List PendingWrite → Exec (Unit {0})
  commit_direct batch = do
    on_metrics (λ m. record m { records_written = m.records_written + length batch })
    save_batch g (last_checkpoint batch) (length batch)
    run_all_callbacks batch

  abbrev settle_direct : Result (List WriteResult) → List PendingWrite → Exec (Unit {0})
  settle_direct (err fence_lost_error) batch = raise fence_lost_error
  settle_direct (err e) batch = flush_batch_outcomes g e batch
  settle_direct (ok results) batch = do
    validate_write_result_count (length batch) (length results)
    if all_ok results
        then commit_direct batch
        else (do outcomes ← resolve_all g batch results; commit_outcomes g outcomes)

  abbrev write_direct : List PendingWrite → Exec (Unit {0})
  write_direct batch = do
    taken ← take_hooks batch
    answer ← attempt (write_batch g (processed_of taken))
    settle_direct answer taken

  unfoldable pub flush_batch_direct : DirectBatch → Exec (Unit {0})
  flush_batch_direct b =
      let callbacks = callbacks_of b.on_success_list b.processed_list in
      if length b.processed_list == 0
      then skip
      else if same_lengths b.processed_list b.raw_list b.checkpoint_list callbacks
      then write_direct (zip_writes b.processed_list b.raw_list b.checkpoint_list callbacks)
      else raise (runtime_error "flush_batch_direct() requires lists with matching lengths.")
