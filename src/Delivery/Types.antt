-- ===== src/Delivery/Types.antt =====
-- Value objects of delivery: core/runtime/_delivery_types.py, core/writer/_result.py,
-- core/types/_policies.py, `Checkpoint` of core/checkpoint.py, `DLQRecord` of core/dlq.py and
-- `MiddlewareFailure` of core/middleware/_types.py.
use agora_etl.Prelude.{ℕ, String, Bool, true, false, not, ◌&&◌, Option, List, [], ◌∷◌}
use agora_etl.Failures.{Exc, FailureDecision}

-- A record is named by a number: its identity, `id(record)`.
abbrev pub Value : Type 0
Value = ℕ

-- A checkpoint value is compared for equality and is otherwise opaque.
abbrev pub CheckpointValue : Type 0
CheckpointValue = Option ℕ

-- A success hook is an opaque callback. A composed hook runs its callbacks in turn.
abbrev pub Hook : Type 0
Hook = ℕ

abbrev pub Callback : Type 0
Callback = Option (List Hook)

pub data SinkFailurePolicy : Type 0 where
  fail_closed log_and_continue : SinkFailurePolicy

pub data CheckpointFailurePolicy : Type 0 where
  fail_closed log_and_continue : CheckpointFailurePolicy

pub data DlqFailurePolicy : Type 0 where
  log_only raise_error : DlqFailurePolicy

abbrev pub is_log_and_continue : SinkFailurePolicy → Bool
is_log_and_continue SinkFailurePolicy.fail_closed = false
is_log_and_continue SinkFailurePolicy.log_and_continue = true

abbrev pub is_fail_closed : SinkFailurePolicy → Bool
is_fail_closed SinkFailurePolicy.fail_closed = true
is_fail_closed SinkFailurePolicy.log_and_continue = false

pub record WriteResult : Type 0 where
  pub written : Bool
  pub errors : List Exc

abbrev pub no_errors : List Exc → Bool
no_errors [] = true
no_errors (e ∷ es) = false

unfoldable pub write_ok : WriteResult → Bool
write_ok r = r.written && no_errors r.errors

unfoldable pub partial : WriteResult → Bool
partial r = r.written && not (no_errors r.errors)

pub record Checkpoint : Type 0 where
  pub pipeline_id : String
  pub run_id : String
  pub source : String
  pub value : ℕ
  pub source_identity : Option ℕ

-- `dlq_details` of an exception: absent, a dictionary, or another object.
pub data ExistingDetails : Type 0 where
  no_details : ExistingDetails
  details_dict provider_details : ℕ → ExistingDetails

-- What a DLQ record can hold, before and after the redactor. `failure_details` is the dictionary of
-- `_merge_failure_details`.
pub data Payload : Type 0 where
  value : Option ℕ → Payload
  text : String → Payload
  failure_details : FailureDecision → ExistingDetails → Payload
  redacted : ℕ → Payload

pub record DlqRecord : Type 0 where
  pub pipeline_id : String
  pub run_id : String
  pub stage : String
  pub error_type : String
  pub error_message : Payload
  pub body : Payload
  pub source : String
  pub checkpoint : Payload
  pub details : Payload
  pub middleware : Option String
  pub sink : Option String
  pub original_record : Payload
  pub processed_record : Payload

pub record MiddlewareFailure : Type 0 where
  pub stage : String
  pub subject : Value
  pub middleware : String
  pub exception : Exc

pub record BatchFailure : Type 0 where
  pub exception : Exc
  pub middleware : String

pub record PendingWrite : Type 0 where
  pub processed : Value
  pub raw : Value
  pub checkpoint : CheckpointValue
  pub on_success : Callback

pub data CommitOutcome : Type 0 where
  written dropped errored_routed : CheckpointValue → Callback → CommitOutcome
  errored_unrouted : Exc → CommitOutcome
