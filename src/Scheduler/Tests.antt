-- ===== src/Scheduler/Tests.antt =====
-- A scheduler that fails twice, and one whose only run is skipped.
use agora_etl.Prelude.{true, false, none, some, List, [], ◌∷◌, ◌≡◌, refl}
use agora_etl.Failures.{value_error, ok}
use agora_etl.Scheduler.{
  interval, once, next_delay, Config, RunRecord, failure, pipeline_run, backed_off, notified,
  hook_asked, waited_until_next, Round, HookRun, succeeded, failed, aborted, returned,
  was_cancelled, finished, run,
}
use agora_etl.Scheduler.Streaks.{fresh_state}

abbrev hourly : Config
hourly = record {
  schedule = interval 3600;
  max_consecutive_errors = 2;
  backoff = λ n. ok (next_delay 60 600 n);
}

abbrev fails : Round
fails = record {
  stop_requested = false;
  pre_run_hook = none;
  outcome = record { end = failed (value_error "down") false; notify_cut = false };
  wait = returned tt;
}

abbrev loses_lease : Round
loses_lease = record fails { outcome = record { end = aborted; notify_cut = false } }

-- Cancelled in the sleep after the failure.
abbrev fails_and_cut : Round
fails_and_cut = record fails {
  outcome = record { end = failed (value_error "down") true; notify_cut = false };
}

-- A lost lease between two failures does not break the streak.
abbrev rounds : List Round
rounds = fails ∷ loses_lease ∷ fails ∷ fails ∷ []

-- A cancellation may come with the failures at their maximum.
cut_at_maximum :
    let r = run hourly (fails ∷ fails_and_cut ∷ []) fresh_state [] in
    (r.0 ≡ was_cancelled) × (r.1.consecutive_errors ≡ 2)
unfolding run agora_etl.Scheduler.loop agora_etl.Scheduler.run_once agora_etl.Scheduler.start_run
    agora_etl.Scheduler.should_continue
cut_at_maximum = (refl, refl)

stops_after_two_failures : (run hourly rounds fresh_state []).0 ≡ finished
unfolding run agora_etl.Scheduler.loop agora_etl.Scheduler.run_once agora_etl.Scheduler.start_run
    agora_etl.Scheduler.should_continue
stops_after_two_failures = refl

abbrev told_failure : RunRecord
told_failure = record {
  run_number = 1;
  summary = none;
  error = some (failure (value_error "down"));
}

-- After a failure the loop waits for the backoff, and then for the whole interval too.
waits_twice :
    (run hourly (fails ∷ []) fresh_state []).2
    ≡ waited_until_next ∷ notified told_failure ∷ backed_off 60 ∷ pipeline_run 1 none ∷ []
unfolding run next_delay agora_etl.Scheduler.loop agora_etl.Scheduler.run_once
    agora_etl.Scheduler.start_run agora_etl.Scheduler.should_continue
waits_twice = refl

-- A schedule that runs once and whose hook says no never runs.
once_may_be_never :
    (run
      (record hourly { schedule = once })
      (record {
        stop_requested = false;
        pre_run_hook = some (record { answer = returned false; fence = none });
        outcome = record { end = succeeded 5; notify_cut = false };
        wait = returned tt;
      }
        ∷ fails
        ∷ [])
      fresh_state
      []).2
    ≡ hook_asked ∷ []
unfolding run agora_etl.Scheduler.loop agora_etl.Scheduler.run_once agora_etl.Scheduler.start_run
    agora_etl.Scheduler.should_continue
once_may_be_never = refl
