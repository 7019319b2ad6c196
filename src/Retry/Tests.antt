-- ===== src/Retry/Tests.antt =====
-- The retry theorems at concrete inputs.
use agora_etl.Prelude.{
  ℕ, ◌≤◌, ltb, true, Option, none, some, [], ◌∷◌, if◌then◌else◌, ◌≡◌, refl, arith,
}
use agora_etl.Failures.{
  Exc, raised, timeout_error, Result, ok, err, classify_failure, classify_raised, classify_kind,
}
use agora_etl.Retry.{
  RetryPolicy, IsPolicy, Run, retry_async, retry_from, failure_decision, should_retry, backoff_for,
  attach_failure_decision,
}
use agora_etl.Retry.Attempts.{IsRun, retry_async-IsRun, backoff_for_mono}

abbrev timed_out : Exc
timed_out = raised (record {
  kind = timeout_error;
  type_name = "TimeoutError";
  ident = 1;
  failure_decision = none;
  poison_info = none;
})

abbrev policy : RetryPolicy
policy = record {
  max_attempts = 4;
  initial_backoff = 10;
  backoff_multiplier = 3;
  max_backoff = 25;
  retry_exceptions = some (λ e. true);
  retry_if = none;
  failure_classifier = none;
}

policy-IsPolicy : IsPolicy policy
policy-IsPolicy = record { attempts = omega arith; multiplier = omega arith }

-- Two time-outs, then an answer.
abbrev flaky : ℕ → Result ℕ
flaky n = if ltb n 3 then err timed_out else ok 42

abbrev silent : ℕ → Exc → ℕ → Option Exc
silent n e delay = none

flaky_run :
    retry_async policy flaky silent
    ≡ some (record { result = ok 42; calls = 3; delays = 10 ∷ 25 ∷ [] })
unfolding retry_async retry_from failure_decision should_retry backoff_for attach_failure_decision
    classify_failure classify_raised classify_kind
flaky_run = refl

retry_async-IsRun_example :
    (r : Run ℕ) × (retry_async policy flaky silent ≡ some r) × IsRun policy flaky silent 1 r
retry_async-IsRun_example = retry_async-IsRun policy flaky silent policy-IsPolicy

delays_grow : (backoff_for policy 1 ≤ 25) × (backoff_for policy 1 ≤ backoff_for policy 2)
delays_grow = backoff_for_mono policy 1 policy-IsPolicy
