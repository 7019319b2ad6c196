-- ===== src/Lanes/Ahead.antt =====
-- A checkpoint that runs ahead of the records queued before it.
use agora_etl.Prelude.{ℕ, true, none, some, [], ◌∷◌, ◌≡◌, arith}
use agora_etl.Delivery.Types.{Value}
use agora_etl.Delivery.World.{World, Engine, checkpoint_sent}
use agora_etl.Delivery.Exec.{◌>>=◌}
use agora_etl.Delivery.Calls.{
  entries_of, success_hook_for, pop_success_hooks, assert_run_fence_active, assert_active,
  run_callback,
}
use agora_etl.Delivery.Checkpoints.{
  Store, increment_by, should_save, make_checkpoint, save, prepare, persist_if, persist,
}
use agora_etl.Delivery.Engine.{drop_record, queue_processed_record}

module _ (g : Engine) (store : Store) where
  -- With a store, no fence, no hook for the record and its checkpoint due, a dropped record has its
  -- checkpoint sent to the store, the only call, while the writes queued before it stay pending.
  pub drop_ahead :
      (raw : Value) (c : ℕ) (size : ℕ) (w : World)
      → g.checkpoint_store ≡ some store
      → g.run_fence ≡ none
      → entries_of raw w.success_hooks ≡ []
      → should_save (increment_by 1 w.checkpoint_state) c g.checkpoint_every ≡ true
      → ((queue_processed_record g none raw (some c) size none none w).1.log
          ≡ checkpoint_sent
              (make_checkpoint g c w)
              (store w.log g.checkpoint_key (make_checkpoint g c w))
            ∷ w.log)
        × ((queue_processed_record g none raw (some c) size none none w).1.pending_writes
            ≡ w.pending_writes)
  unfolding queue_processed_record drop_record success_hook_for pop_success_hooks save prepare
      persist_if persist run_callback assert_run_fence_active assert_active ◌>>=◌
  drop_ahead raw c size w stored unfenced clean due = ground (arith, stored, unfenced, clean, due)
