-- ===== src/Lanes/OutOfOrder.antt =====
-- Runs of the pipelined lane whose checkpoints do not follow the order of the batches.
use agora_etl.Prelude.{ℕ, false, Option, none, some, List, [], ◌∷◌, ◌==◌, if◌then◌else◌, ◌≡◌, refl}
use agora_etl.Failures.{ok}
use agora_etl.Delivery.Types.{Value, CheckpointValue, WriteResult, write_ok}
use agora_etl.Delivery.World.{History, Engine, checkpoint_sent, batch_sent}
use agora_etl.Delivery.Exec.{Exec, pure, raise, skip, ◌>>=◌}
use agora_etl.Delivery.Calls.{
  success_hook_for, pop_success_hooks, write_batch, record_flush_metrics, run_callback, run_hooks,
  assert_run_fence_active, assert_active,
}
use agora_etl.Delivery.Checkpoints.{
  should_save, increment_by, mark_saved, prepare, persist_if, persist, save_batch,
}
use agora_etl.Delivery.Results.{resolve, resolve_write_result, validate_write_result_count}
use agora_etl.Delivery.Batching.{commit_outcomes, commit_from, apply_gathered}
use agora_etl.Delivery.BatchWrite.{
  write_batch_result, write_batch_filtered, zip_strict, active_items, dropped_records,
  pop_dropped_hooks, resolve_active, write_batch_middleware_failure,
}
use agora_etl.Delivery.Samples.{start, poison, strict, lenient, answer_for}
use agora_etl.Middleware.{Middleware, batch_stage, process_batch_range, apply_in_batch}
use agora_etl.Lanes.Batches.{finalize_list_batch_result}
use agora_etl.Lanes.Pipelined.{run_pipelined, feed, make_room, drain_ready, drain_all, commit_next}
use agora_etl.Lanes.Stages.{ListStage, ask, resolve_list, arrive_list, list_pipeline}

-- The checkpoints that were saved and the batches that were written, newest first.
data Mark : Type 0 where
  saved : ℕ → Mark
  wrote : List Value → Mark

abbrev marks : History → List Mark
marks [] = []
marks (checkpoint_sent c r ∷ h) = saved c.value ∷ marks h
marks (batch_sent vs r ∷ h) = wrote vs ∷ marks h
marks (e ∷ h) = marks h

abbrev batches : List (List Value × CheckpointValue)
batches = (4 ∷ [], some 1) ∷ (6 ∷ [], some 2) ∷ (8 ∷ [], some 3) ∷ []

abbrev fails_on_six : List Value → Exec (List (Option Value))
fails_on_six [] = pure []
fails_on_six (v ∷ vs) = if v == 6 then raise poison else pure (some v ∷ [])

abbrev checking : Middleware
checking = record { name = "check"; stage = batch_stage fails_on_six; on_error = λ v e. skip }

-- Up to three batches in flight, none of which is done before it is awaited.
abbrev slow_stage : List Middleware → ℕ → ListStage
slow_stage before limit = record {
  name = "enrich";
  max_in_flight = limit;
  before = before;
  after = [];
  submit_batch = λ h rs. none;
  is_done = λ h rs. false;
  future = λ h rs. ok rs;
  drain_pending_batches = λ h. none;
}

-- The second batch fails before the stage while the first is in flight: its checkpoint is saved
-- before the first batch is written, and then the first batch's checkpoint after it.
failed_batch_first :
    marks
      (run_pipelined
        (list_pipeline lenient (slow_stage (checking ∷ []) 3) none)
        (arrive_list lenient (slow_stage (checking ∷ []) 3))
        batches
        none
        start).1.log
    ≡ saved 3 ∷ wrote (8 ∷ []) ∷ saved 1 ∷ wrote (4 ∷ []) ∷ saved 2 ∷ []
unfolding run_pipelined feed make_room drain_ready drain_all commit_next arrive_list resolve_list
    ask finalize_list_batch_result write_batch_result write_batch_filtered
    write_batch_middleware_failure zip_strict active_items dropped_records pop_dropped_hooks
    process_batch_range apply_in_batch resolve_active success_hook_for pop_success_hooks
    commit_outcomes commit_from apply_gathered prepare persist_if persist save_batch increment_by
    should_save mark_saved write_batch assert_run_fence_active assert_active record_flush_metrics
    validate_write_result_count resolve resolve_write_result write_ok run_callback run_hooks ◌>>=◌
failed_batch_first = refl

abbrev answers_for : List Value → List WriteResult
answers_for [] = []
answers_for (v ∷ vs) = if v == 4 then [] else answer_for v ∷ []

-- A sink that gives no result for record 4.
abbrev silent_on_four : Engine
silent_on_four = record strict { write_many = λ h vs. ok (answers_for vs) }

-- The commit of the first batch raises, with an exception that does not cancel what is pending: the
-- batch behind it is written and its checkpoint saved before the exception is raised.
abbrev goes_on : Exec (Unit {0})
goes_on =
    run_pipelined (list_pipeline silent_on_four (slow_stage [] 2) none)
      (arrive_list silent_on_four (slow_stage [] 2)) batches none

later_batch_commits : marks (goes_on start).1.log ≡ saved 2 ∷ wrote (6 ∷ []) ∷ wrote (4 ∷ []) ∷ []
unfolding run_pipelined feed make_room drain_ready drain_all commit_next arrive_list resolve_list
    ask finalize_list_batch_result write_batch_result write_batch_filtered zip_strict active_items
    dropped_records pop_dropped_hooks process_batch_range apply_in_batch resolve_active
    success_hook_for pop_success_hooks commit_outcomes commit_from apply_gathered prepare persist_if
    persist save_batch increment_by should_save mark_saved write_batch assert_run_fence_active
    assert_active record_flush_metrics validate_write_result_count resolve resolve_write_result
    write_ok run_callback run_hooks ◌>>=◌
later_batch_commits = refl
