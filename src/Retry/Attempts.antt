-- ===== src/Retry/Attempts.antt =====
-- The attempts of `retry_async`: how many there are, and why each was made.
use agora_etl.Prelude.{
  ℕ, zero, suc, ◌+◌, ◌-◌, ◌*◌, ◌≤◌, ◌<◌, true, Option, none, some, ltb, length, ◌≡◌, refl, sym, ◌∙◌,
  arith, inl, inr, Bool-cases, ltb→lt,
}
use mathlib.Core.Path.{subst}
use native.Mathlib.Nat.{mul-le-mul_left, mul-le-mul_right}
use agora_etl.Failures.{Exc, FailureDecision, Result, ok, err}
use agora_etl.Retry.{
  RetryPolicy, IsPolicy, failure_decision, should_retry, power, backoff_for,
  attach_failure_decision, Run, ended, wait, settle_call, retry_from, retry_async,
}

retry_below :
    (p : RetryPolicy) (e : Exc) (attempt : ℕ) (d : FailureDecision)
    → should_retry p e attempt d ≡ true
    → attempt < p.max_attempts
unfolding should_retry
retry_below p e attempt d h = ground arith

module _ (p : RetryPolicy) {A : Type 0} (operation : ℕ → Result A)
    (on_retry : ℕ → Exc → ℕ → Option Exc) where
  -- The call of attempt `k` raised, and the policy has it retried.
  pub record IsRetried (k : ℕ) : Type 0 where
    pub exception : Exc
    pub raised_it : operation k ≡ err exception
    pub allowed :
        should_retry p
          (attach_failure_decision (failure_decision p exception) exception)
          k
          (failure_decision p exception)
        ≡ true

  -- A run that starts at an attempt: it ends within the attempts, every call but the last was retried,
  -- and a result is that of the last call.
  pub record IsRun (attempt : ℕ) (r : Run A) : Type 0 where
    pub started : attempt ≤ r.calls
    pub bounded : r.calls ≤ p.max_attempts
    pub retried : (k : ℕ) → attempt ≤ k → k < r.calls → IsRetried k
    pub answered : (a : A) → r.result ≡ ok a → operation r.calls ≡ ok a
    pub waited : length r.delays + attempt ≤ r.calls

  abbrev pub Ends : ℕ → Option (Run A) → Type 0
  Ends attempt none = ⊥
  Ends attempt (some r) = IsRun attempt r

  ended-Ends :
      (r : Result A) (attempt : ℕ)
      → attempt ≤ p.max_attempts
      → ((a : A) → r ≡ ok a → operation attempt ≡ ok a)
      → Ends attempt (ended p operation on_retry r attempt)
  ended-Ends r attempt h answer = record {
    started = omega arith;
    bounded = h;
    retried = λ k l m. let x : ⊥ = omega (arith, l, m) in elim x [ ];
    answered = answer;
    waited = omega arith;
  }

  raised-Ends :
      (e : Exc) (attempt : ℕ)
      → attempt ≤ p.max_attempts
      → Ends attempt (ended p operation on_retry (err e) attempt)
  raised-Ends e attempt h = ended-Ends (err e) attempt h (λ a same. ground arith)

  IsRetried-from :
      (attempt k : ℕ) (r : Run A)
      → IsRetried attempt
      → IsRun (attempt + 1) r
      → attempt ≤ k
      → k < r.calls
      → IsRetried k
  IsRetried-from attempt k r first rest l m = elim (Bool-cases (ltb attempt k)) [
    | inl later ↦ rest.retried k (omega (arith, ltb→lt attempt k later)) m
    | inr same ↦ subst IsRetried (ground (arith, l, same)) first
  ]

  wait-Ends :
      (w : Option Exc) (attempt : ℕ) (rest : Option (Run A))
      → attempt < p.max_attempts
      → IsRetried attempt
      → Ends (attempt + 1) rest
      → Ends attempt (wait p operation on_retry w attempt rest)
  wait-Ends (some e) attempt rest h first k = raised-Ends e attempt (omega (arith, h))
  wait-Ends none attempt none h first k = elim k [ ]
  wait-Ends none attempt (some r) h first k = record {
    started = omega (arith, k.started);
    bounded = k.bounded;
    retried = λ j l m. IsRetried-from attempt j r first k l m;
    answered = k.answered;
    waited = ground (arith, k.waited);
  }

  settle_call-Ends :
      (c : Result A) (attempt : ℕ) (rest : Option (Run A))
      → operation attempt ≡ c
      → attempt ≤ p.max_attempts
      → (attempt < p.max_attempts → Ends (attempt + 1) rest)
      → Ends attempt (settle_call p operation on_retry c attempt rest)
  settle_call-Ends (ok a) attempt rest same h k =
      ended-Ends (ok a) attempt h (λ b same_b. same ∙ same_b)
  settle_call-Ends (err e) attempt rest same h k =
      let d = failure_decision p e in
      let e' = attach_failure_decision d e in
      elim (Bool-cases (should_retry p e' attempt d)) [
        | inl allowed_now ↦ simp allowed_now (
            wait-Ends (on_retry attempt e' (backoff_for p attempt)) attempt rest
              (retry_below p e' attempt d allowed_now)
              (record { exception = e; raised_it = same; allowed = allowed_now })
              (k (retry_below p e' attempt d allowed_now)))
        | inr refused ↦ simp refused (raised-Ends e' attempt h)
      ]

  retry_from-Ends :
      (n attempt : ℕ)
      → n + attempt ≡ p.max_attempts + 1
      → 1 ≤ n
      → Ends attempt (retry_from p operation on_retry n attempt)
  unfolding retry_from
  retry_from-Ends zero attempt total h = let x : ⊥ = omega (arith, h) in elim x [ ]
  retry_from-Ends (suc n) attempt total h =
      settle_call-Ends (operation attempt) attempt (retry_from p operation on_retry n (attempt + 1))
        refl (omega (arith, total))
        (λ below.
          retry_from-Ends n (attempt + 1) (omega (arith, total)) (omega (arith, total, below)))

  Ends-some : (o : Option (Run A)) → Ends 1 o → (r : Run A) × (o ≡ some r) × IsRun 1 r
  Ends-some none h = elim h [ ]
  Ends-some (some r) h = (r, refl, h)

  -- With fuel for `max_attempts` calls the loop comes to an end: the operation was called at least
  -- once and at most `max_attempts` times; every call but the last raised an exception that the policy
  -- has retried; a result is that of the last call; and at most one delay was slept before each call
  -- but the first.
  pub retry_async-IsRun :
      IsPolicy p → (r : Run A) × (retry_async p operation on_retry ≡ some r) × IsRun 1 r
  unfolding retry_async
  retry_async-IsRun h =
      Ends-some (retry_from p operation on_retry p.max_attempts 1)
        (retry_from-Ends p.max_attempts 1 refl h.attempts)

power_step : (a m i j : ℕ) → 1 ≤ m → i ≤ j → j ≤ i + 1 → a * power m i ≤ a * power m j
power_step a m i j h below above = elim (Bool-cases (ltb i j)) [
  | inl next ↦
      let e : j ≡ suc i = omega (arith, above, ltb→lt i j next) in
      subst (λ k. a * power m i ≤ a * power m k) (sym e)
        (mul-le-mul_left a (omega (arith, mul-le-mul_right (power m i) h)))
  | inr same ↦
      let e : i ≡ j = ground (arith, below, same) in
      subst (λ k. a * power m i ≤ a * power m k) e (omega arith)
]

-- No delay is longer than `max_backoff`, and the delays never shrink from one attempt to the next.
pub backoff_for_mono :
    (p : RetryPolicy) (attempt : ℕ)
    → IsPolicy p
    → (backoff_for p attempt ≤ p.max_backoff)
      × (backoff_for p attempt ≤ backoff_for p (attempt + 1))
unfolding backoff_for
backoff_for_mono p attempt h =
    let grown =
      power_step p.initial_backoff p.backoff_multiplier (attempt - 1) (attempt + 1 - 1) h.multiplier
        (omega arith) (omega arith) in
    (omega arith, omega (arith, grown))
