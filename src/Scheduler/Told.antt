-- ===== src/Scheduler/Told.antt =====
-- What the log of a scheduler says of its runs.
use agora_etl.Prelude.{
  ℕ, ◌+◌, ◌≤◌, ◌<◌, Bool, true, false, ◌⊎◌, Option, none, some, List, [], ◌∷◌, length, take, ◌≡◌,
}
use agora_etl.Failures.{Result, ok}
use agora_etl.Scheduler.{
  Config, should_repeat, RunError, failure, lease_lost, cancelled_error, RunRecord, State,
  hook_asked, pipeline_run, backed_off, notified, waited_until_next, waited_after_skip, Log, Ended,
  still_running, stopped, finished, was_cancelled, raised,
}

-- The runs that were told of, the last one first.
abbrev pub notifications : Log → List RunRecord
notifications [] = []
notifications (notified r ∷ l) = r ∷ notifications l
notifications (hook_asked ∷ l) = notifications l
notifications (pipeline_run n f ∷ l) = notifications l
notifications (backed_off d ∷ l) = notifications l
notifications (waited_until_next ∷ l) = notifications l
notifications (waited_after_skip ∷ l) = notifications l

abbrev pub one_more : Option RunError → ℕ → ℕ
one_more none n = 0
one_more (some (failure e)) n = n + 1
one_more (some lease_lost) n = n
one_more (some cancelled_error) n = n

-- The failures since the last success; a lost lease is neither.
abbrev pub streak : List RunRecord → ℕ
streak [] = 0
streak (r ∷ rs) = one_more r.error (streak rs)

abbrev pub IsNumbered : List RunRecord → Type 0
IsNumbered [] = Unit {0}
IsNumbered (r ∷ rs) = (r.run_number ≡ length rs + 1) × IsNumbered rs

-- Every backoff is the one for the failures in a row up to it.
abbrev pub BacksOff : (ℕ → Result ℕ) → Log → Type 0
BacksOff backoff [] = Unit {0}
BacksOff backoff (backed_off d ∷ l) =
    (backoff (streak (notifications l) + 1) ≡ ok d) × BacksOff backoff l
BacksOff backoff (notified r ∷ l) = BacksOff backoff l
BacksOff backoff (hook_asked ∷ l) = BacksOff backoff l
BacksOff backoff (pipeline_run n f ∷ l) = BacksOff backoff l
BacksOff backoff (waited_until_next ∷ l) = BacksOff backoff l
BacksOff backoff (waited_after_skip ∷ l) = BacksOff backoff l

pub record IsTold (c : Config) (s : State) (l : Log) : Type 0 where
  pub errors : s.consecutive_errors ≡ streak (notifications l)
  pub counted : s.run_number ≡ length (notifications l)
  pub recent : s.history ≡ take 100 (notifications l)
  pub numbered : IsNumbered (notifications l)
  pub backs_off : BacksOff c.backoff l

-- What the end of the loop means for the failures in a row.
abbrev pub EndsRight : Config → Ended → ℕ → Bool → Type 0
EndsRight c finished n running =
    ((should_repeat c.schedule ≡ false) ⊎ (c.max_consecutive_errors ≤ n)) × (running ≡ false)
EndsRight c still_running n running = (n < c.max_consecutive_errors) × (running ≡ true)
EndsRight c stopped n running = (n < c.max_consecutive_errors) × (running ≡ false)
EndsRight c was_cancelled n running = (n ≤ c.max_consecutive_errors) × (running ≡ false)
EndsRight c (raised e) n running = (n ≤ c.max_consecutive_errors) × (running ≡ false)
