-- ===== src/Failures/Tests.antt =====
-- The taxonomy's theorems at concrete inputs.
use agora_etl.Prelude.{◌≡◌, refl, not, none}
use agora_etl.Failures.{raised, Raised, timeout_error, classify_failure}
use agora_etl.Failures.Laws.{retryable-not-dlq_eligible}

abbrev timed_out : Raised
timed_out = record {
  kind = timeout_error;
  type_name = "TimeoutError";
  ident = 1;
  failure_decision = none;
  poison_info = none;
}

timed_out_is_retryable :
    (classify_failure (raised timed_out)).retryable
    ≡ not (classify_failure (raised timed_out)).dlq_eligible
timed_out_is_retryable = retryable-not-dlq_eligible timed_out refl
