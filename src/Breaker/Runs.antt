-- ===== src/Breaker/Runs.antt =====
-- Runs of the breaker. Calls overlap, so a run is any sequence of admissions, successes and failures:
-- a call that was admitted in one state may end in another.
use agora_etl.Prelude.{
  ℕ, ◌+◌, ◌-◌, ◌≤◌, ◌<◌, none, some, List, [], ◌∷◌, ◌≡◌, ◌≢◌, refl, ap, ◌∙◌, map, arith,
}
use agora_etl.Breaker.{
  CircuitState, closed, open_circuit, half_open, CircuitBreakerConfig, Breaker, fresh, set_state,
  should_attempt_reset, time_until_retry, on_success, on_failure, Admission, rejected, admitted,
  admit,
}

pub data BreakerEvent : Type 0 where
  admission : ℕ → BreakerEvent
  success reset_call : BreakerEvent
  failure : ℕ → BreakerEvent

-- What a state holds between two methods.
abbrev pub Counts : CircuitBreakerConfig → CircuitState → Breaker → Type 0
Counts cfg closed b = (b.failure_count < cfg.failure_threshold) × (b.success_count ≡ 0)
Counts cfg open_circuit b = (b.last_failure_time ≢ none) × (b.success_count ≡ 0)
Counts cfg half_open b = (b.last_failure_time ≢ none) × (b.success_count < cfg.success_threshold)

abbrev pub IsValid : CircuitBreakerConfig → Breaker → Type 0
IsValid cfg b = Counts cfg b.state b

module _ (cfg : CircuitBreakerConfig) where
  abbrev after_admission : Breaker → Admission → Breaker
  after_admission b (rejected _) = b
  after_admission b (admitted b') = b'

  unfoldable pub step : Breaker → BreakerEvent → Breaker
  step b (admission now) = after_admission b (admit cfg b now)
  step b success = on_success cfg b
  step b (failure now) = on_failure cfg b now
  step b reset_call = fresh

  unfoldable pub run : Breaker → List BreakerEvent → Breaker
  run b [] = b
  run b (e ∷ es) = run (step b e) es

  step-IsValid :
      (b : Breaker) (e : BreakerEvent)
      → 0 < cfg.failure_threshold
      → 0 < cfg.success_threshold
      → IsValid cfg b
      → IsValid cfg (step b e)
  unfolding step admit should_attempt_reset set_state on_success on_failure
  step-IsValid b (admission now) f t v = ground arith
  step-IsValid b success f t v = ground arith
  step-IsValid b (failure now) f t v = ground arith
  step-IsValid b reset_call f t v = ground arith

  runs :
      (b : Breaker) (es : List BreakerEvent)
      → 0 < cfg.failure_threshold
      → 0 < cfg.success_threshold
      → IsValid cfg b
      → IsValid cfg (run b es)
  unfolding run
  runs b [] f t v = v
  runs b (e ∷ es) f t v = runs (step b e) es f t (step-IsValid b e f t v)

  -- With positive thresholds, from a fresh breaker, whatever admissions, successes, failures and manual
  -- resets follow in whatever order: while closed, fewer failures are counted than the threshold; while
  -- open or half open a failure time is known; while half open fewer successes are counted than their
  -- threshold.
  pub run-IsValid :
      (es : List BreakerEvent)
      → 0 < cfg.failure_threshold
      → 0 < cfg.success_threshold
      → IsValid cfg (run fresh es)
  run-IsValid es f t = runs fresh es f t (omega arith)

  -- Once a failure at time `t` has opened the breaker, calls are rejected with the time that is left
  -- until `t + timeout_seconds`; from then on a call is admitted, and the breaker is half open.
  pub admit_after_opening :
      (b : Breaker) (now : ℕ) (t : ℕ)
      → b.state ≡ open_circuit
      → b.last_failure_time ≡ some t
      → (now < t + cfg.timeout_seconds → admit cfg b now ≡ rejected (t + cfg.timeout_seconds - now))
        × (t + cfg.timeout_seconds ≤ now
            → admit cfg b now ≡ admitted (record b { state = half_open }))
  unfolding admit should_attempt_reset time_until_retry set_state
  admit_after_opening b now t o k = (λ h. ground arith, λ h. ground arith)

  half_open_admission : (b : Breaker) (t : ℕ) → b.state ≡ half_open → step b (admission t) ≡ b
  unfolding step admit
  half_open_admission b t s = ground arith

  -- A half-open breaker admits every call and stays as it is, however many calls are still running:
  -- `n` admissions in a row are `n` probes.
  pub half_open_admits :
      (times : List ℕ) (b : Breaker) → b.state ≡ half_open → run b (map admission times) ≡ b
  unfolding run
  half_open_admits [] b s = refl
  half_open_admits (t ∷ ts) b s =
      ap (λ (x : Breaker). run x (map admission ts)) (half_open_admission b t s)
      ∙ half_open_admits ts b s
