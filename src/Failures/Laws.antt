-- ===== src/Failures/Laws.antt =====
-- What the taxonomy promises to retry and to DLQ routing.
use agora_etl.Prelude.{◌≡◌, not, none, arith}
use agora_etl.Failures.{
  raised, Raised, classify_kind, poison_decision, classify_raised, classify_failure,
}

-- An exception with no attached decision is retryable exactly when it is not eligible for the DLQ:
-- what can be retried is not acknowledged as a poison record, and what cannot be retried is routed.
pub retryable-not-dlq_eligible :
    (r : Raised)
    → r.failure_decision ≡ none
    → (classify_failure (raised r)).retryable ≡ not (classify_failure (raised r)).dlq_eligible
unfolding classify_failure classify_raised poison_decision classify_kind
retryable-not-dlq_eligible r h = ground arith
