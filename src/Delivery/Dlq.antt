-- ===== src/Delivery/Dlq.antt =====
-- `DLQWriter` of core/runtime/_delivery_support.py. Its log lines and the optional metrics callback
-- `record_failure_decision` change nothing that delivery reads, and are left out.
use agora_etl.Prelude.{ℕ, ◌+◌, String, Bool, true, false, Option, none, some, if◌then◌else◌}
use agora_etl.Failures.{Exc, Result, ok, err, FailureDecision, classify_failure, exception_name}
use agora_etl.Delivery.Types.{
  Value, CheckpointValue, DlqFailurePolicy, log_only, raise_error, Payload, value, text,
  failure_details, DlqRecord,
}
use agora_etl.Delivery.World.{World, History, dlq_sent, Engine}
use agora_etl.Delivery.Exec.{Exec, pure, raise, attempt, gets, notify, ◌>>=◌, ◌>>◌}
use agora_etl.Delivery.Calls.{on_metrics, assert_run_fence_active}

-- The keyword arguments of `write_to_dlq`. Its `sink` is given by no caller.
pub record DlqRequest : Type 0 where
  pub stage : String
  pub exception : Exc
  pub body : Option Value
  pub original_record : Option Value
  pub processed_record : Option Value
  pub source : Option String
  pub checkpoint : CheckpointValue
  pub middleware : Option String

abbrev first_given : Option ℕ → Option ℕ → Option ℕ
first_given (some a) b = some a
first_given none b = b

abbrev or_default : Option String → String → String
or_default none d = d
or_default (some s) d = s

abbrev pub DlqSink : Type 0
DlqSink = History → DlqRecord → Option Exc

module _ (g : Engine) where
  abbrev pub redact : Payload → Payload
  redact p = elim g.dlq_redactor [ none ↦ p | some f ↦ f p ]

  unfoldable pub dlq_record : DlqRequest → FailureDecision → World → DlqRecord
  dlq_record q decision w = record {
    pipeline_id = g.pipeline_id;
    run_id = g.run_id;
    stage = q.stage;
    error_type = exception_name q.exception;
    error_message = redact (text (g.error_text q.exception));
    body = redact (value (first_given q.original_record (first_given q.body q.processed_record)));
    source = or_default q.source g.source_name;
    checkpoint = redact (value (first_given q.checkpoint (g.current_checkpoint w.log)));
    details = redact (failure_details decision (g.dlq_details q.exception));
    middleware = q.middleware;
    sink = none;
    original_record = redact (value q.original_record);
    processed_record = redact (value q.processed_record);
  }

  abbrev pub policy_failure : DlqFailurePolicy → Exc → Exec Bool
  policy_failure raise_error e = raise e
  policy_failure log_only e = pure false

  abbrev pub settle : Result (Unit {0}) → Exec Bool
  settle (ok _) = pure true
  settle (err e) = do
    on_metrics (λ m. record m { dlq_failure_count = m.dlq_failure_count + 1 })
    policy_failure g.dlq_failure_policy e

  abbrev pub send : DlqSink → DlqRequest → FailureDecision → Exec Bool
  send sink q decision = do
    result ← attempt do
      assert_run_fence_active g
      entry ← gets (dlq_record q decision)
      notify (λ h. sink h entry) (dlq_sent entry)
    settle result

  abbrev pub write_in : Option DlqSink → DlqRequest → Exec Bool
  write_in none q = pure false
  write_in (some sink) q =
      let decision = classify_failure q.exception in
      if decision.dlq_eligible then send sink q decision else pure false

  -- True if the record is in the DLQ.
  unfoldable pub write_to_dlq : DlqRequest → Exec Bool
  write_to_dlq q = write_in g.dlq_sink q
