-- ===== src/Delivery/Samples.antt =====
-- Engines and runs that the examples use.
use agora_etl.Prelude.{String, true, false, Option, none, some, [], ◌∷◌, map, ◌==◌, if◌then◌else◌}
use agora_etl.Failures.{Exc, raised, other_error, timeout_error, ok}
use agora_etl.Delivery.Types.{
  Value, WriteResult, SinkFailurePolicy, CheckpointFailurePolicy, DlqFailurePolicy, Checkpoint,
  ExistingDetails, DlqRecord, PendingWrite,
}
use agora_etl.Delivery.World.{History, Metrics, World, Engine}

abbrev pub zero_metrics : Metrics
zero_metrics = record {
  records_written = 0;
  records_dropped = 0;
  records_errored = 0;
  dlq_failure_count = 0;
  checkpoint_failure_count = 0;
  checkpoint_save_count = 0;
  checkpoint_save_max_batch_size = 0;
  writer_flush_count = 0;
  writer_flush_max_batch_size = 0;
  last_checkpoint = none;
}

-- The state at the start of a run.
abbrev pub start : World
start = record {
  checkpoint_state = record { processed_count = 0; last_saved_value = none };
  pending_writes = [];
  metrics = zero_metrics;
  middleware_metrics = [];
  success_hooks = [];
  log = [];
}

abbrev pub poison : Exc
poison = raised (record {
  kind = other_error;
  type_name = "PoisonError";
  ident = 1;
  failure_decision = none;
  poison_info = none;
})

abbrev pub slow : Exc
slow = raised (record {
  kind = timeout_error;
  type_name = "TimeoutError";
  ident = 2;
  failure_decision = none;
  poison_info = none;
})

-- The sink refuses record 13 with `poison` and takes all others.
abbrev pub answer_for : Value → WriteResult
answer_for v =
    if v == 13
    then record { written = false; errors = poison ∷ [] }
    else record { written = true; errors = [] }

abbrev store : History → String → Checkpoint → Option Exc
store h k c = none

abbrev accept : History → DlqRecord → Option Exc
accept h r = none

abbrev refuse : History → DlqRecord → Option Exc
refuse h r = some slow

-- FAIL_CLOSED, with a checkpoint store that saves every checkpoint, and no DLQ.
abbrev pub strict : Engine
strict = record {
  pipeline_id = "orders";
  run_id = "run-1";
  source_name = "source";
  current_checkpoint = λ h. none;
  dlq_sink = none;
  dlq_sink_name = "dlq";
  dlq_failure_policy = DlqFailurePolicy.log_only;
  dlq_redactor = none;
  sink_failure_policy = SinkFailurePolicy.fail_closed;
  checkpoint_store = some store;
  checkpoint_failure_policy = CheckpointFailurePolicy.fail_closed;
  checkpoint_key = "orders";
  checkpoint_every = 1;
  checkpoint_source_identity = none;
  write = λ h v. ok (answer_for v);
  write_many = λ h vs. ok (map answer_for vs);
  run_hook = λ h k. none;
  run_discard = λ h k. none;
  run_fence = none;
  error_text = λ e. "error";
  dlq_details = λ e. ExistingDetails.no_details;
}

abbrev pub with_dlq : Engine
with_dlq = record strict { dlq_sink = some accept }

abbrev pub with_broken_dlq : Engine
with_broken_dlq = record strict { dlq_sink = some refuse }

abbrev pub lenient : Engine
lenient = record strict { sink_failure_policy = SinkFailurePolicy.log_and_continue }

abbrev pub pending : Value → PendingWrite
pending v = record { processed = v; raw = v; checkpoint = some v; on_success = none }
