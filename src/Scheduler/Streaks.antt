-- ===== src/Scheduler/Streaks.antt =====
-- What the scheduler's state says of the runs that its observers were told of.
use agora_etl.Prelude.{false, none, []}
use agora_etl.Scheduler.{Config, State, Log, Ended}
use agora_etl.Scheduler.Told.{IsTold, EndsRight}

record Finishes (c : Config) (r : Ended × State × Log) : Type 0 where
  told : IsTold c r.1 r.2
  ends : EndsRight c r.0 r.1.consecutive_errors r.1.running

abbrev pub fresh_state : State
fresh_state = record {
  run_number = 0;
  consecutive_errors = 0;
  history = [];
  running = false;
  run_fence = none;
}
