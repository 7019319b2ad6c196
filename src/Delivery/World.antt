-- ===== src/Delivery/World.antt =====
-- The state of one run that delivery reads and writes: `RunState`, `CheckpointState`, the metrics of
-- the context and its success hooks; and the collaborators that core calls and does not implement.
-- A collaborator's answer may depend on every call made so far, which `World.log` holds, newest first.
use agora_etl.Prelude.{ℕ, String, Bool, Option, List}
use agora_etl.Failures.{Exc, Result}
use agora_etl.Delivery.Types.{
  Value, CheckpointValue, Hook, SinkFailurePolicy, CheckpointFailurePolicy, DlqFailurePolicy,
  WriteResult, Checkpoint, ExistingDetails, Payload, DlqRecord, PendingWrite,
}

-- A call of a collaborator, with its answer.
pub data Event : Type 0 where
  fence_checked : Result Bool → Event
  record_sent : Value → Result WriteResult → Event
  batch_sent : List Value → Result (List WriteResult) → Event
  arrow_sent : List Value → Result (Unit {0}) → Event
  dlq_sent : DlqRecord → Option Exc → Event
  checkpoint_sent : Checkpoint → Option Exc → Event
  hook_called : Hook → Option Exc → Event
  discard_called : Hook → Option Exc → Event

abbrev pub History : Type 0
History = List Event

pub record CheckpointState : Type 0 where
  pub processed_count : ℕ
  pub last_saved_value : CheckpointValue

-- The counters that delivery changes. Times of the wall clock are left out.
pub record Metrics : Type 0 where
  pub records_written : ℕ
  pub records_dropped : ℕ
  pub records_errored : ℕ
  pub dlq_failure_count : ℕ
  pub checkpoint_failure_count : ℕ
  pub checkpoint_save_count : ℕ
  pub checkpoint_save_max_batch_size : ℕ
  pub writer_flush_count : ℕ
  pub writer_flush_max_batch_size : ℕ
  pub last_checkpoint : Option Checkpoint

-- A hook and its discard callback, registered for a record.
pub record HookEntry : Type 0 where
  pub owner : Value
  pub hook : Hook
  pub on_discard : Option Hook

-- The counters of one middleware.
pub record MiddlewareMetrics : Type 0 where
  pub name : String
  pub records_in : ℕ
  pub records_out : ℕ
  pub records_dropped : ℕ
  pub records_errored : ℕ

pub record World : Type 0 where
  pub checkpoint_state : CheckpointState
  pub pending_writes : List PendingWrite
  pub metrics : Metrics
  pub middleware_metrics : List MiddlewareMetrics
  pub success_hooks : List HookEntry
  pub log : History

-- `DeliveryEngine`, its `WriterTransport`, and the exceptions' attributes that are opaque.
pub record Engine : Type 0 where
  pub pipeline_id : String
  pub run_id : String
  pub source_name : String
  pub current_checkpoint : History → CheckpointValue
  pub dlq_sink : Option (History → DlqRecord → Option Exc)
  pub dlq_sink_name : String
  pub dlq_failure_policy : DlqFailurePolicy
  pub dlq_redactor : Option (Payload → Payload)
  pub sink_failure_policy : SinkFailurePolicy
  pub checkpoint_store : Option (History → String → Checkpoint → Option Exc)
  pub checkpoint_failure_policy : CheckpointFailurePolicy
  pub checkpoint_key : String
  pub checkpoint_every : ℕ
  pub checkpoint_source_identity : Option (History → Option ℕ)
  pub write : History → Value → Result WriteResult
  pub write_many : History → List Value → Result (List WriteResult)
  pub run_hook : History → Hook → Option Exc
  pub run_discard : History → Hook → Option Exc
  pub run_fence : Option (History → Result Bool)
  pub error_text : Exc → String
  pub dlq_details : Exc → ExistingDetails
