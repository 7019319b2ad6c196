-- ===== src/Scheduler.antt =====
-- The scheduler loop: `ScheduledPipelineRunner` of runner/runtime.py with `Schedule` of
-- runner/scheduled.py and the backoff of runner/policies.py. Seconds are whole numbers. A cancellation or an
-- exception may end every call that the loop awaits.
mod Told
mod Rounds
mod Streaks
mod Tests
use agora_etl.Prelude.{
  ℕ, zero, suc, ◌+◌, ◌*◌, min, Bool, true, false, not, Option, none, some, List, [], ◌∷◌, ◌++◌,
  take, ltb, if◌then◌else◌,
}
use agora_etl.Failures.{Exc, Result, ok, err}

pub data Mode : Type 0 where
  interval : ℕ → Mode
  cron continuous once : Mode

abbrev pub should_repeat : Mode → Bool
should_repeat once = false
should_repeat (interval seconds) = true
should_repeat cron = true
should_repeat continuous = true

abbrev pub double_times : ℕ → ℕ → ℕ
double_times zero n = n
double_times (suc k) n = 2 * double_times k n

-- `ExponentialBackoffPolicy.next_delay`; the policy of a user may raise.
unfoldable pub next_delay : ℕ → ℕ → ℕ → ℕ
next_delay base_delay max_delay zero = 0
next_delay base_delay max_delay (suc errors) = min (double_times errors base_delay) max_delay

pub record Config : Type 0 where
  pub schedule : Mode
  pub max_consecutive_errors : ℕ
  pub backoff : ℕ → Result ℕ

pub data RunError : Type 0 where
  failure : Exc → RunError
  lease_lost cancelled_error : RunError

-- `summary` is the number of records that the run consumed.
pub record RunRecord : Type 0 where
  pub run_number : ℕ
  pub summary : Option ℕ
  pub error : Option RunError

-- `history` has at most 100 runs, the last one first here.
pub record State : Type 0 where
  pub run_number : ℕ
  pub consecutive_errors : ℕ
  pub history : List RunRecord
  pub running : Bool
  pub run_fence : Option ℕ

-- What the runner does to the outside, the last one first.
pub data Effect : Type 0 where
  hook_asked : Effect
  pipeline_run : ℕ → Option ℕ → Effect
  backed_off : ℕ → Effect
  notified : RunRecord → Effect
  waited_until_next waited_after_skip : Effect

-- How an awaited call ends.
pub data Awaited (A : Type 0) : Type 0 where
  returned : A → Awaited A
  threw : Exc → Awaited A
  was_cut : Awaited A

-- The hook may set the run fence.
pub record HookRun : Type 0 where
  pub answer : Awaited Bool
  pub fence : Option ℕ

-- How a build and a run end; the lease is lost if `abort_event` is set before the run is done. After a
-- failure, whether the sleep of the backoff is cancelled.
pub data RunEnd : Type 0 where
  succeeded : ℕ → RunEnd
  failed : Exc → Bool → RunEnd
  aborted cancelled : RunEnd

-- A build and a run, and whether a cancellation ends the notification that follows.
pub record Run : Type 0 where
  pub end : RunEnd
  pub notify_cut : Bool

-- One round of the loop: whether a stop was asked for when the loop looks, and the answers; `wait` is
-- how the wait for the next round ends.
pub record Round : Type 0 where
  pub stop_requested : Bool
  pub pre_run_hook : Option HookRun
  pub outcome : Run
  pub wait : Awaited (Unit {0})

pub data Once : Type 0 where
  ran skipped cancelled_out : Once
  raised_out : Exc → Once

abbrev pub Log : Type 0
Log = List Effect

-- `_handle_run_failure` from the backoff on: what it logs, and how it ends.
abbrev pub back_off : Result ℕ → Bool → Log → Log × Once
back_off (err x) cut l = (l, raised_out x)
back_off (ok d) true l = (backed_off d ∷ l, cancelled_out)
back_off (ok d) false l = (backed_off d ∷ l, ran)

-- The record of a run with the state, the log and the end of what precedes the `finally`.
pub record Settled : Type 0 where
  pub entry : RunRecord
  pub state : State
  pub log : Log
  pub ends : Once

-- `_handle_run_success` and `_handle_run_failure`, with the record that they leave.
abbrev pub settle : Config → ℕ → RunEnd → State → Log → Settled
settle c n (succeeded k) s l = record {
  entry = record { run_number = n; summary = some k; error = none };
  state = record s { consecutive_errors = 0 };
  log = l;
  ends = ran;
}
settle c n (failed e cut) s l =
    let (l', ends) = back_off (c.backoff (s.consecutive_errors + 1)) cut l in
    record {
      entry = record { run_number = n; summary = none; error = some (failure e) };
      state = record s { consecutive_errors = s.consecutive_errors + 1 };
      log = l';
      ends = ends;
    }
settle c n aborted s l = record {
  entry = record { run_number = n; summary = none; error = some lease_lost };
  state = s;
  log = l;
  ends = ran;
}
settle c n cancelled s l = record {
  entry = record { run_number = n; summary = none; error = some cancelled_error };
  state = s;
  log = l;
  ends = cancelled_out;
}

-- The `finally` of `_run_once`. Exceptions of the callbacks are logged and go no further; a
-- cancellation takes the place of what the run ended with, and the run fence stays.
abbrev pub finish_run : Bool → Settled → Once × State × Log
finish_run true t = (
  cancelled_out,
  record t.state { history = take 100 (t.entry ∷ t.state.history) },
  notified t.entry ∷ t.log,
)
finish_run false t = (
  t.ends,
  record t.state { history = take 100 (t.entry ∷ t.state.history); run_fence = none },
  notified t.entry ∷ t.log,
)

unfoldable pub start_run : Config → Run → State → Log → Once × State × Log
start_run c r s l =
    let n = s.run_number + 1 in
    finish_run r.notify_cut
      (settle c n r.end (record s { run_number = n }) (pipeline_run n s.run_fence ∷ l))

abbrev pub after_hook : Config → Awaited Bool → Run → State → Log → Once × State × Log
after_hook c (returned true) r s l = start_run c r s l
after_hook c (returned false) r s l = (skipped, s, l)
after_hook c (threw x) r s l = (raised_out x, s, l)
after_hook c was_cut r s l = (cancelled_out, s, l)

unfoldable pub run_once : Config → Option HookRun → Run → State → Log → Once × State × Log
run_once c none r s l = start_run c r s l
run_once c (some h) r s l =
    after_hook c h.answer r (record s { run_fence = h.fence }) (hook_asked ∷ l)

unfoldable pub should_continue : Config → State → Bool
should_continue c s =
    if should_repeat c.schedule then ltb s.consecutive_errors c.max_consecutive_errors else false

pub data Ended : Type 0 where
  still_running stopped finished was_cancelled : Ended
  raised : Exc → Ended

abbrev pub stop_running : State → State
stop_running s = record s { running = false }

abbrev pub Rest : Type 0
Rest = State → Log → Ended × State × Log

-- `wait_until_next` and `wait_after_skip`, and the rest of the loop.
abbrev pub after_wait : Awaited (Unit {0}) → State → Log → Rest → Ended × State × Log
after_wait (returned done) s l rest = rest s l
after_wait (threw x) s l rest = (raised x, stop_running s, l)
after_wait was_cut s l rest = (was_cancelled, stop_running s, l)

-- What follows `_run_once`: the end of the loop, or a wait and the rest of it.
abbrev pub after_once :
    Config → Awaited (Unit {0}) → Once × State × Log → Rest → Ended × State × Log
after_once c wait (cancelled_out, s, l) rest = (was_cancelled, stop_running s, l)
after_once c wait (raised_out e, s, l) rest = (raised e, stop_running s, l)
after_once c wait (ran, s, l) rest =
    if should_continue c s
    then after_wait wait s (waited_until_next ∷ l) rest
    else (finished, stop_running s, l)
after_once c wait (skipped, s, l) rest =
    if should_continue c s
    then after_wait wait s (waited_after_skip ∷ l) rest
    else (finished, stop_running s, l)

-- The answers of the rounds to come are given; where they end, the loop has not.
unfoldable pub loop : Config → List Round → Rest
loop c [] s l = (still_running, s, l)
loop c (r ∷ rs) s l =
    if r.stop_requested
    then (stopped, stop_running s, l)
    else after_once c r.wait (run_once c r.pre_run_hook r.outcome s l) (loop c rs)

unfoldable pub run : Config → List Round → Rest
run c rs s l = loop c rs (record s { running = true }) l
