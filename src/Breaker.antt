-- ===== src/Breaker.antt =====
-- sources/_internal/circuit_breaker.py: `AsyncCircuitBreaker`. Each method body that holds the lock
-- is one step. The clock is `time.monotonic`, in a unit of its own; it enters as an argument.
mod Runs
mod Tests
use agora_etl.Prelude.{
  ℕ, ◌+◌, ◌-◌, ◌≤◌, Bool, true, false, Option, none, some, List, [], ◌∷◌, leb, if◌then◌else◌,
}

pub data CircuitState : Type 0 where
  closed open_circuit half_open : CircuitState

pub record CircuitBreakerConfig : Type 0 where
  pub failure_threshold : ℕ
  pub timeout_seconds : ℕ
  pub success_threshold : ℕ

pub record Breaker : Type 0 where
  pub state : CircuitState
  pub failure_count : ℕ
  pub success_count : ℕ
  pub last_failure_time : Option ℕ

-- `__init__` and `reset`
abbrev pub fresh : Breaker
fresh = record { state = closed; failure_count = 0; success_count = 0; last_failure_time = none }

abbrev pub same_state : CircuitState → CircuitState → Bool
same_state closed closed = true
same_state open_circuit open_circuit = true
same_state half_open half_open = true
same_state _ _ = false

abbrev pub entered : CircuitState → Breaker → Breaker
entered closed b = record b { state = closed; failure_count = 0; success_count = 0 }
entered s b = record b { state = s }

unfoldable pub set_state : CircuitState → Breaker → Breaker
set_state s b = if same_state s b.state then b else entered s b

-- What `call` decides under its first lock: the delay of `CircuitBreakerOpenError`, or the state
-- in which the function is called.
pub data Admission : Type 0 where
  rejected : ℕ → Admission
  admitted : Breaker → Admission

module _ (cfg : CircuitBreakerConfig) where
  -- A clock that is behind the last failure gives a negative difference, which is no timeout.
  abbrev pub elapsed_reached : Option ℕ → ℕ → Bool
  elapsed_reached none now = true
  elapsed_reached (some t) now = leb (t + cfg.timeout_seconds) now

  unfoldable pub should_attempt_reset : Breaker → ℕ → Bool
  should_attempt_reset b now = elapsed_reached b.last_failure_time now

  -- `max(0.0, timeout - elapsed)`, with `elapsed = now - t`
  abbrev pub remaining : Option ℕ → ℕ → ℕ
  remaining none now = 0
  remaining (some t) now = t + cfg.timeout_seconds - now

  unfoldable pub time_until_retry : Breaker → ℕ → ℕ
  time_until_retry b now = remaining b.last_failure_time now

  abbrev pub success_in : CircuitState → Breaker → Breaker
  success_in half_open b =
      let counted = record b { success_count = b.success_count + 1 } in
      if leb cfg.success_threshold counted.success_count then set_state closed counted else counted
  success_in s b = b

  unfoldable pub on_success : Breaker → Breaker
  on_success b = success_in b.state (record b { failure_count = 0 })

  abbrev pub failure_in : CircuitState → Breaker → Breaker
  failure_in closed b =
      if leb cfg.failure_threshold b.failure_count then set_state open_circuit b else b
  failure_in half_open b = set_state open_circuit b
  failure_in open_circuit b = b

  unfoldable pub on_failure : Breaker → ℕ → Breaker
  on_failure b now = failure_in b.state (record b {
    failure_count = b.failure_count + 1;
    success_count = 0;
    last_failure_time = some now;
  })

  abbrev pub admit_in : CircuitState → Breaker → ℕ → Admission
  admit_in open_circuit b now =
      if should_attempt_reset b now
      then admitted (set_state half_open b)
      else rejected (time_until_retry b now)
  admit_in s b now = admitted b

  unfoldable pub admit : Breaker → ℕ → Admission
  admit b now = admit_in b.state b now
