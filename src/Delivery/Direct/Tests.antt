-- ===== src/Delivery/Direct/Tests.antt =====
-- Direct batches at concrete inputs.
use agora_etl.Prelude.{List, [], ◌∷◌, ◌≡◌, refl}
use agora_etl.Delivery.Types.{PendingWrite}
use agora_etl.Delivery.World.{Engine}
use agora_etl.Delivery.Exec.{◌>>=◌}
use agora_etl.Delivery.Calls.{assert_active, assert_run_fence_active, run_hooks, run_callback}
use agora_etl.Delivery.Checkpoints.{
  prepare, persist, persist_if, save_batch, should_save, mark_saved, increment_by,
}
use agora_etl.Delivery.Batching.{apply_gathered}
use agora_etl.Delivery.Engine.{gather_successes, commit_pending_write_success_batch}
use agora_etl.Delivery.Direct.{commit_direct, run_all_callbacks}
use agora_etl.Delivery.Samples.{start, strict, pending}

abbrev every_two : Engine
every_two = record strict { checkpoint_every = 2 }

abbrev three : List PendingWrite
three = pending 4 ∷ pending 5 ∷ pending 6 ∷ []

-- Through the buffer the second record's checkpoint is saved, directly none is.
buffered_saves :
    (commit_pending_write_success_batch every_two three start).1.metrics.checkpoint_save_count ≡ 1
unfolding commit_pending_write_success_batch gather_successes prepare should_save increment_by
    apply_gathered persist_if persist assert_run_fence_active assert_active mark_saved run_hooks
    ◌>>=◌
buffered_saves = refl

direct_saves : (commit_direct every_two three start).1.metrics.checkpoint_save_count ≡ 0
unfolding commit_direct save_batch should_save increment_by persist_if run_all_callbacks
    run_callback ◌>>=◌
direct_saves = refl
