-- ===== src/Failures.antt =====
-- src/agora/core/failures/__init__.py: the failure taxonomy, and the exceptions that the runtime
-- tells apart (src/agora/core/fencing.py, core/runtime/_delivery_types.py, _delivery_support.py).
pub mod Laws
mod Tests
use agora_etl.Prelude.{ℕ, String, Bool, true, false, Option, none, some, List}

pub data FailureClassification : Type 0 where
  deserialization serialization schema_evolution schema_validation : FailureClassification
  schema_registry_binding_mismatch schema_drift constraint_violation : FailureClassification
  type_mismatch connectivity timeout authorization configuration unknown : FailureClassification

pub data AlertSeverity : Type 0 where
  info warning error critical : AlertSeverity

-- An opaque Python `dict[str, Any]`.
abbrev pub Details : Type 0
Details = List (String × ℕ)

pub record FailureDecision : Type 0 where
  pub classification : FailureClassification
  pub retryable : Bool
  pub dlq_eligible : Bool
  pub alert_severity : AlertSeverity
  pub reason : Option String
  pub details : Details

pub record PoisonRecordInfo : Type 0 where
  pub classification : FailureClassification
  pub reason : Option String
  pub details : Details

-- The builtin class, the most specific of those that `classify_failure` asks for. `TimeoutError`
-- and `ConnectionError` are subclasses of `OSError`.
pub data ExceptionKind : Type 0 where
  timeout_error connection_error os_error unicode_decode_error unicode_encode_error : ExceptionKind
  other_error : ExceptionKind

-- An exception of a collaborator: its class, its `__name__` and the two attributes that core reads.
pub record Raised : Type 0 where
  pub kind : ExceptionKind
  pub type_name : String
  pub ident : ℕ
  pub failure_decision : Option FailureDecision
  pub poison_info : Option PoisonRecordInfo

pub data Exc : Type 0 where
  raised : Raised → Exc
  fence_lost_error : Exc
  runtime_error value_error : String → Exc
  record_delivery_error : Exc → Exc
  checkpoint_save_error : Exc → Exc

-- A Python call that may raise.
pub data Result {ℓ} (A : Type ℓ) : Type ℓ where
  ok : A → Result A
  err : Exc → Result A

unfoldable pub exception_name : Exc → String
exception_name (raised r) = r.type_name
exception_name fence_lost_error = "FenceLostError"
exception_name (runtime_error _) = "RuntimeError"
exception_name (value_error _) = "ValueError"
exception_name (record_delivery_error _) = "RecordDeliveryError"
exception_name (checkpoint_save_error _) = "_CheckpointSaveError"

-- The tests on the builtin class, in the order of the source.
unfoldable pub classify_kind : ExceptionKind → String → FailureDecision
classify_kind timeout_error name = record {
  classification = timeout;
  retryable = true;
  dlq_eligible = false;
  alert_severity = warning;
  reason = some name;
  details = List.[];
}
classify_kind connection_error name = record {
  classification = connectivity;
  retryable = true;
  dlq_eligible = false;
  alert_severity = warning;
  reason = some name;
  details = List.[];
}
classify_kind os_error name = record {
  classification = connectivity;
  retryable = true;
  dlq_eligible = false;
  alert_severity = warning;
  reason = some name;
  details = List.[];
}
classify_kind unicode_decode_error name = record {
  classification = deserialization;
  retryable = false;
  dlq_eligible = true;
  alert_severity = error;
  reason = some name;
  details = List.[];
}
classify_kind unicode_encode_error name = record {
  classification = serialization;
  retryable = false;
  dlq_eligible = true;
  alert_severity = error;
  reason = some name;
  details = List.[];
}
classify_kind other_error name = record {
  classification = unknown;
  retryable = false;
  dlq_eligible = true;
  alert_severity = error;
  reason = some name;
  details = List.[];
}

unfoldable pub poison_decision : PoisonRecordInfo → FailureDecision
poison_decision p = record {
  classification = p.classification;
  retryable = false;
  dlq_eligible = true;
  alert_severity = error;
  reason = p.reason;
  details = p.details;
}

-- An attached decision goes first, then poison metadata, then the class of the exception.
unfoldable pub classify_raised :
    Option FailureDecision → Option PoisonRecordInfo → Raised → FailureDecision
classify_raised (some d) _ r = d
classify_raised none (some p) r = poison_decision p
classify_raised none none r = classify_kind r.kind r.type_name

-- The runtime's own exceptions carry neither attribute, and are of no builtin class of the list.
unfoldable pub classify_failure : Exc → FailureDecision
classify_failure (raised r) = classify_raised r.failure_decision r.poison_info r
classify_failure e = classify_kind other_error (exception_name e)
