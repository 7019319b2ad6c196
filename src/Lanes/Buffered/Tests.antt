-- ===== src/Lanes/Buffered/Tests.antt =====
-- A buffered stage over three records.
use agora_etl.Prelude.{
  ℕ, ◌+◌, true, false, none, some, List, [], ◌∷◌, ◌==◌, if◌then◌else◌, ◌≡◌, refl,
}
use agora_etl.Failures.{ok}
use agora_etl.Delivery.Types.{Value, write_ok}
use agora_etl.Delivery.World.{History, record_sent, checkpoint_sent}
use agora_etl.Delivery.Exec.{pure, skip, ◌>>=◌}
use agora_etl.Delivery.Calls.{
  success_hook_for, pop_success_hooks, transfer_success_hooks, write_one, record_flush_metrics,
  run_callback, run_hooks, assert_run_fence_active, assert_active,
}
use agora_etl.Delivery.Checkpoints.{
  save, should_save, increment_by, mark_saved, prepare, persist_if, persist,
}
use agora_etl.Delivery.Results.{resolve, resolve_write_result, commit_outcome}
use agora_etl.Delivery.Engine.{
  drop_record, write_processed_record, flush_pending_writes, dispatch_processed_result,
}
use agora_etl.Delivery.Samples.{start, strict}
use agora_etl.Middleware.{Middleware, sync_filter, process_range, process_outcome, process_stage}
use agora_etl.Lanes.Linear.{SourceRecord}
use agora_etl.Lanes.Pipelined.{feed, make_room, drain_ready, drain_all, commit_next}
use agora_etl.Lanes.Stages.{ask}
use agora_etl.Lanes.Buffered.{
  BufferedStage, value, resolve_buffered, submit_buffered, arrive_buffered, or_abort, run_buffered,
}

-- The next number of each, and record 6 is done first.
abbrev enrich : List Middleware → BufferedStage
enrich before = record {
  name = "enrich";
  concurrency = 2;
  before = before;
  after = [];
  submit = λ h v. none;
  is_done = λ h v. v == 6;
  future = λ h v. ok (value (some (v + 1)));
  drain_pending = λ h. none;
}

abbrev read : Value → SourceRecord
read v = record { raw = v; checkpoint = some v; on_success = none }

abbrev three_records : List SourceRecord
three_records = read 4 ∷ read 6 ∷ read 8 ∷ []

-- The checkpoints that were saved and the records that were written, newest first.
data Mark : Type 0 where
  saved wrote : ℕ → Mark

abbrev marks : History → List Mark
marks [] = []
marks (checkpoint_sent c r ∷ h) = saved c.value ∷ marks h
marks (record_sent v r ∷ h) = wrote v ∷ marks h
marks (e ∷ h) = marks h

abbrev without_six : Middleware
without_six = record {
  name = "filter";
  stage = sync_filter (λ v. if v == 6 then pure false else pure true);
  on_error = λ v e. skip;
}

-- Record 6 is dropped while record 4 is in flight: its checkpoint is saved before record 4 is written.
dropped_first :
    marks (run_buffered strict 1 (enrich (without_six ∷ [])) none three_records none start).1.log
    ≡ saved 8 ∷ wrote 9 ∷ saved 4 ∷ wrote 5 ∷ saved 6 ∷ []
unfolding run_buffered feed make_room drain_ready drain_all commit_next arrive_buffered
    submit_buffered resolve_buffered or_abort flush_pending_writes drop_record ask process_outcome
    process_range process_stage dispatch_processed_result write_processed_record write_one
    record_flush_metrics assert_run_fence_active assert_active resolve resolve_write_result write_ok
    commit_outcome success_hook_for pop_success_hooks save prepare persist_if persist should_save
    increment_by mark_saved run_callback run_hooks transfer_success_hooks ◌>>=◌
dropped_first = refl
