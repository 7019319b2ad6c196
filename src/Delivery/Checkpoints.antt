-- ===== src/Delivery/Checkpoints.antt =====
-- `CheckpointState` of core/runtime/_delivery_state.py and `CheckpointManager` of
-- core/runtime/_delivery_support.py.
use agora_etl.Prelude.{
  ℕ, ◌+◌, ◌%◌, max, String, Bool, false, Option, none, some, ◌==◌, leb, if◌then◌else◌,
}
use agora_etl.Failures.{Exc, runtime_error, checkpoint_save_error, Result, ok, err}
use agora_etl.Delivery.Types.{CheckpointValue, CheckpointFailurePolicy, Checkpoint}
use agora_etl.Delivery.World.{World, History, checkpoint_sent, CheckpointState, Engine}
use agora_etl.Delivery.Exec.{Exec, pure, raise, attempt, modify, gets, skip, notify, ◌>>=◌, ◌>>◌}
use agora_etl.Delivery.Calls.{on_metrics, assert_run_fence_active}

abbrev is_saved : ℕ → CheckpointValue → Bool
is_saved v none = false
is_saved v (some u) = v == u

-- `count` is a size, never negative, so `max(0, count)` is `count`.
unfoldable pub increment_by : ℕ → CheckpointState → CheckpointState
increment_by count s = record s { processed_count = s.processed_count + count }

unfoldable pub should_save : CheckpointState → ℕ → ℕ → Bool
should_save s v every =
    if is_saved v s.last_saved_value then false else s.processed_count % every == 0

unfoldable pub mark_saved : ℕ → CheckpointState → CheckpointState
mark_saved v s = record s { last_saved_value = some v }

abbrev pub on_state : (CheckpointState → CheckpointState) → Exec (Unit {0})
on_state f = modify (λ w. record w { checkpoint_state = f w.checkpoint_state })

abbrev pub Store : Type 0
Store = History → String → Checkpoint → Option Exc

module _ (g : Engine) where
  abbrev pub identity : World → Option ℕ
  identity w = elim g.checkpoint_source_identity [ none ↦ none | some f ↦ f w.log ]

  abbrev pub make_checkpoint : ℕ → World → Checkpoint
  make_checkpoint v w = record {
    pipeline_id = g.pipeline_id;
    run_id = g.run_id;
    source = g.source_name;
    value = v;
    source_identity = identity w;
  }

  -- The tail that `prepare` and `save_batch` share: the state is counted already.
  abbrev pub due : ℕ → World → Option Checkpoint
  due v w =
      if should_save w.checkpoint_state v g.checkpoint_every
      then some (make_checkpoint v w)
      else none

  abbrev pub prepare_in : Option Store → ℕ → Exec (Option Checkpoint)
  prepare_in none v = pure none
  prepare_in (some save) v = do on_state (increment_by 1); gets (due v)

  unfoldable pub prepare : CheckpointValue → Exec (Option Checkpoint)
  prepare none = pure none
  prepare (some v) = prepare_in g.checkpoint_store v

  -- The store call inside the `try` of `persist`.
  abbrev pub save_in : Option Store → Checkpoint → Exec (Unit {0})
  save_in none c = raise (runtime_error "checkpoint_store is None")
  save_in (some save) c = notify (λ h. save h g.checkpoint_key c) (checkpoint_sent c)

  abbrev pub settle_failure : CheckpointFailurePolicy → Checkpoint → Exc → Exec (Unit {0})
  settle_failure CheckpointFailurePolicy.log_and_continue c e = on_state (mark_saved c.value)
  settle_failure CheckpointFailurePolicy.fail_closed c e = raise (checkpoint_save_error e)

  abbrev pub settle : Checkpoint → ℕ → Result (Unit {0}) → Exec (Unit {0})
  settle c size (err e) = do
    on_metrics (λ m. record m { checkpoint_failure_count = m.checkpoint_failure_count + 1 })
    settle_failure g.checkpoint_failure_policy c e
  settle c size (ok _) = do
    on_state (mark_saved c.value)
    on_metrics λ m. record m {
      last_checkpoint = some c;
      checkpoint_save_count = m.checkpoint_save_count + 1;
      checkpoint_save_max_batch_size = max m.checkpoint_save_max_batch_size size;
    }

  unfoldable pub persist : Checkpoint → ℕ → Exec (Unit {0})
  persist c size = do
    result ← attempt (assert_run_fence_active g >> save_in g.checkpoint_store c)
    settle c size result

  unfoldable pub persist_if : Option Checkpoint → ℕ → Exec (Unit {0})
  persist_if none size = skip
  persist_if (some c) size = persist c size

  unfoldable pub save : CheckpointValue → Exec (Unit {0})
  save value = do c ← prepare value; persist_if c 1

  abbrev pub save_due : ℕ → ℕ → Exec (Unit {0})
  save_due v size = do on_state (increment_by size); c ← gets (due v); persist_if c size

  abbrev pub save_batch_in : Option Store → ℕ → ℕ → Exec (Unit {0})
  save_batch_in none v size = skip
  save_batch_in (some _) v size = if leb size 0 then skip else save_due v size

  unfoldable pub save_batch : CheckpointValue → ℕ → Exec (Unit {0})
  save_batch none size = skip
  save_batch (some v) size = save_batch_in g.checkpoint_store v size
