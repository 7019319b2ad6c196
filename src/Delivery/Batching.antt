-- ===== src/Delivery/Batching.antt =====
-- core/runtime/_delivery_batching.py: the side effects of a batch are gathered and applied together.
pub mod Split
use agora_etl.Prelude.{
  ℕ, ◌+◌, Bool, true, false, ◌&&◌, ◌||◌, Option, none, some, List, [], ◌∷◌, ◌++◌, if◌then◌else◌,
}
use agora_etl.Failures.{Exc, record_delivery_error}
use agora_etl.Delivery.Types.{
  Hook, Callback, is_log_and_continue, is_fail_closed, Checkpoint, PendingWrite, CommitOutcome,
  written, dropped, errored_routed, errored_unrouted,
}
use agora_etl.Delivery.World.{Engine}
use agora_etl.Delivery.Exec.{Exec, pure, raise, skip, ◌>>=◌, ◌>>◌}
use agora_etl.Delivery.Calls.{on_metrics, run_hooks}
use agora_etl.Delivery.Checkpoints.{prepare, persist_if}
use agora_etl.Delivery.Dlq.{write_to_dlq}
use agora_etl.Delivery.Results.{count_errored, sink_request}

-- `pending_checkpoint`, `pending_checkpoint_batch_size` and `delivered_hooks`
pub record Gathered : Type 0 where
  pub checkpoint : Option Checkpoint
  pub batch_size : ℕ
  pub hooks : List Hook

abbrev pub nothing : Gathered
nothing = record { checkpoint = none; batch_size = 0; hooks = [] }

-- A later checkpoint takes the place of the one that was prepared before it.
abbrev pub with_checkpoint : Option Checkpoint → Gathered → Gathered
with_checkpoint none a = a
with_checkpoint (some c) a = record a { checkpoint = some c; batch_size = a.batch_size + 1 }

abbrev pub with_callback : Callback → Gathered → Gathered
with_callback none a = a
with_callback (some hs) a = record a { hooks = a.hooks ++ hs }

module _ (g : Engine) where
  unfoldable pub apply_gathered : Gathered → Exec (Unit {0})
  apply_gathered a = do persist_if g a.checkpoint a.batch_size; run_hooks g a.hooks

  unfoldable pub flush_from : Exc → Gathered → List PendingWrite → Exec (Unit {0})
  flush_from e a [] = apply_gathered a
  flush_from e a (p ∷ ps) = do
    routed ← write_to_dlq g (sink_request e p.raw p.processed p.checkpoint)
    on_metrics count_errored
    if routed || is_log_and_continue g.sink_failure_policy
        then (do
          c ← prepare g p.checkpoint
          flush_from e (with_callback (if routed then p.on_success else none) (with_checkpoint c a))
              ps)
        else (do apply_gathered a; raise (record_delivery_error e))

  -- The four lists of the source are zipped: an element is the record's `PendingWrite`.
  unfoldable pub flush_batch_outcomes : Exc → List PendingWrite → Exec (Unit {0})
  flush_batch_outcomes e = flush_from e nothing

  unfoldable pub commit_from : Gathered → List CommitOutcome → Exec (Unit {0})
  commit_from a [] = apply_gathered a
  commit_from a (errored_unrouted e ∷ os) = do
    apply_gathered a
    if is_fail_closed g.sink_failure_policy
        then raise (record_delivery_error e)
        else commit_from nothing os
  commit_from a (written c hook ∷ os) = do
    k ← prepare g c
    commit_from (with_callback hook (with_checkpoint k a)) os
  commit_from a (dropped c hook ∷ os) = do
    k ← prepare g c
    commit_from (with_callback hook (with_checkpoint k a)) os
  commit_from a (errored_routed c hook ∷ os) = do
    k ← prepare g c
    commit_from (with_callback hook (with_checkpoint k a)) os

  unfoldable pub commit_outcomes : List CommitOutcome → Exec (Unit {0})
  commit_outcomes = commit_from nothing
