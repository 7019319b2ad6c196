-- ===== src/Retry.antt =====
-- src/agora/core/retry.py: `RetryPolicy` and `retry_async`. Delays are counted in a unit of their own
-- and the multiplier is a whole number; the jitter, which is random, is left out (`jitter_ratio` 0).
pub mod Attempts
mod Tests
use agora_etl.Prelude.{
  ℕ, zero, suc, ◌+◌, ◌-◌, ◌*◌, ◌≤◌, min, Bool, true, false, not, ◌&&◌, ◌||◌, Option, none, some,
  List, [], ◌∷◌, leb, ltb, if◌then◌else◌,
}
use agora_etl.Failures.{Exc, raised, FailureDecision, classify_failure, Result, ok, err}

-- `retry_exceptions` is the test `isinstance`, and absent where the tuple is empty.
pub record RetryPolicy : Type 0 where
  pub max_attempts : ℕ
  pub initial_backoff : ℕ
  pub backoff_multiplier : ℕ
  pub max_backoff : ℕ
  pub retry_exceptions : Option (Exc → Bool)
  pub retry_if : Option (Exc → Bool)
  pub failure_classifier : Option (Exc → FailureDecision)

-- The checks of `__post_init__` that are not void for natural numbers.
pub record IsPolicy (p : RetryPolicy) : Type 0 where
  pub attempts : 1 ≤ p.max_attempts
  pub multiplier : 1 ≤ p.backoff_multiplier

abbrev pub is_given {ℓ} : {A : Type ℓ} → Option A → Bool
is_given none = false
is_given (some a) = true

abbrev pub power : ℕ → ℕ → ℕ
power m zero = 1
power m (suc n) = m * power m n

abbrev pub asked : Option (Exc → Bool) → Exc → Bool
asked none e = true
asked (some test) e = test e

-- An attribute of the exception object; the runtime's own exceptions are not classified by it.
unfoldable pub attach_failure_decision : FailureDecision → Exc → Exc
attach_failure_decision d (raised r) = raised (record r { failure_decision = some d })
attach_failure_decision d e = e

module _ (p : RetryPolicy) where
  abbrev pub classify : Option (Exc → FailureDecision) → Exc → FailureDecision
  classify none e = classify_failure e
  classify (some f) e = f e

  unfoldable pub failure_decision : Exc → FailureDecision
  failure_decision e = classify p.failure_classifier e

  unfoldable pub should_retry : Exc → ℕ → FailureDecision → Bool
  should_retry e attempt d =
      if leb p.max_attempts attempt
      then false
      else if is_given p.failure_classifier && not d.retryable
      then false
      else if is_given p.retry_exceptions && not (asked p.retry_exceptions e)
      then false
      else if not (is_given p.retry_exceptions) && not (is_given p.failure_classifier)
      then false
      else asked p.retry_if e

  unfoldable pub backoff_for : ℕ → ℕ
  backoff_for attempt =
      min (p.initial_backoff * power p.backoff_multiplier (attempt - 1)) p.max_backoff

-- What a run came to: its result, how often the operation was called, and the delays it slept.
pub record Run (A : Type 0) : Type 0 where
  pub result : Result A
  pub calls : ℕ
  pub delays : List ℕ

-- `operation n` is what the call of attempt `n` comes to; `on_retry` may raise.
module _ (p : RetryPolicy) {A : Type 0} (operation : ℕ → Result A)
    (on_retry : ℕ → Exc → ℕ → Option Exc) where
  abbrev pub slept : ℕ → Option (Run A) → Option (Run A)
  slept delay none = none
  slept delay (some r) =
      some (record r { delays = if ltb 0 delay then delay ∷ r.delays else r.delays })

  abbrev pub ended : Result A → ℕ → Option (Run A)
  ended r attempt = some (record { result = r; calls = attempt; delays = [] })

  abbrev pub wait : Option Exc → ℕ → Option (Run A) → Option (Run A)
  wait (some e) attempt rest = ended (err e) attempt
  wait none attempt rest = slept (backoff_for p attempt) rest

  abbrev pub settle_call : Result A → ℕ → Option (Run A) → Option (Run A)
  settle_call (ok a) attempt rest = ended (ok a) attempt
  settle_call (err e) attempt rest =
      let d = failure_decision p e in
      let e' = attach_failure_decision d e in
      if should_retry p e' attempt d
      then wait (on_retry attempt e' (backoff_for p attempt)) attempt rest
      else ended (err e') attempt

  -- The `while` loop; `none` where the fuel is spent.
  unfoldable pub retry_from : ℕ → ℕ → Option (Run A)
  retry_from zero attempt = none
  retry_from (suc n) attempt =
      let rest = retry_from n (attempt + 1) in settle_call (operation attempt) attempt rest

  unfoldable pub retry_async : Option (Run A)
  retry_async = retry_from p.max_attempts 1
