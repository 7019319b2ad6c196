-- ===== src/Lanes/Buffered.antt =====
-- core/runtime/_lanes/_buffered.py with one buffered stage and no adaptive controller: records that the
-- stage works on at once, committed in the order in which they came. Its loops are those of
-- Lanes/Pipelined.antt. What the stage's `submit` raises and what its futures hold is up to the calls
-- made so far. A record counts for the stage, in and out, when it is resolved. The hot counters, the gauges of the
-- stage and cancelling its tasks are left out.
pub mod Commits
mod Tests
use agora_etl.Prelude.{
  ℕ, String, Bool, true, false, Option, none, some, List, [], ◌∷◌, if◌then◌else◌,
}
use agora_etl.Failures.{Exc, Result, ok, err}
use agora_etl.Delivery.Types.{Value, MiddlewareFailure}
use agora_etl.Delivery.World.{World, History, MiddlewareMetrics, Engine}
use agora_etl.Delivery.Exec.{Exec, pure, raise, attempt, modify, skip, ◌>>=◌, ◌>>◌}
use agora_etl.Delivery.Engine.{dispatch_processed_result, flush_pending_writes}
use agora_etl.Middleware.{
  Middleware, Outcome, process_range, process_outcome, on_middleware, count_in, count_out,
  count_dropped, count_errored,
}
use agora_etl.Lanes.Linear.{SourceRecord, re_raise}
use agora_etl.Lanes.Pipelined.{Pipeline, Left, is_fatal, answered, limit_of, feed}
use agora_etl.Lanes.Pipelined
use agora_etl.Lanes.Stages.{ask}

-- What a future holds: a value, or the stage's own `ProcessedSourceRecord`.
pub data BufferedResult : Type 0 where
  value : Option Value → BufferedResult
  processed : SourceRecord → Option Value → Option MiddlewareFailure → BufferedResult

-- The buffered stage, and the middlewares before and after it. A future is named by the value that
-- was submitted.
pub record BufferedStage : Type 0 where
  pub name : String
  pub concurrency : ℕ
  pub before : List Middleware
  pub after : List Middleware
  pub submit : History → Value → Option Exc
  pub is_done : History → Value → Bool
  pub future : History → Value → Result BufferedResult
  pub drain_pending : History → Option Exc

-- `_SingleBufferedPendingRecord`: with a future, or with a failure at once.
pub data BufferedEntry : Type 0 where
  submitted : SourceRecord → Value → BufferedEntry
  immediate : SourceRecord → MiddlewareFailure → BufferedEntry

-- `_abort_single_stage_pending_work`
abbrev pub abort_pending_work : Exec (Unit {0})
abort_pending_work = modify (λ w. record w { pending_writes = [] })

-- `_finalize_single_buffered_metrics`
abbrev counted : Option MiddlewareFailure → Option Value → MiddlewareMetrics → MiddlewareMetrics
counted (some f) v = count_errored 1
counted none none = count_dropped 1
counted none (some v) = count_out 1

module _ (g : Engine) (writer_batch_size : ℕ) (s : BufferedStage) where
  abbrev stage_failure : SourceRecord → Exc → MiddlewareFailure
  stage_failure r e = record {
    stage = "buffered_middleware";
    subject = r.raw;
    middleware = s.name;
    exception = e;
  }

  abbrev pub dispatch : SourceRecord → Outcome → Exec (Unit {0})
  dispatch r outcome =
      dispatch_processed_result g outcome.0 r.raw r.checkpoint writer_batch_size outcome.1
        r.on_success

  abbrev settle_future : SourceRecord → Result BufferedResult → Exec (Unit {0})
  settle_future r (err e) = do
    on_middleware s.name (count_errored 1)
    dispatch r (none, some (stage_failure r e))
  settle_future r (ok (processed q v f)) = do on_middleware s.name (counted f v); dispatch q (v, f)
  settle_future r (ok (value none)) = do
    on_middleware s.name (count_dropped 1)
    dispatch r (none, none)
  settle_future r (ok (value (some v))) = do
    on_middleware s.name (count_out 1)
    outcome ← process_range s.after v v
    dispatch r outcome

  -- `_resolve_single_buffered_record`; the suffix gets the stage's value as its record.
  unfoldable pub resolve_buffered : BufferedEntry → Exec (Unit {0})
  resolve_buffered (immediate r f) = do
    on_middleware s.name (count_in 1)
    on_middleware s.name (count_errored 1)
    dispatch r (none, some f)
  resolve_buffered (submitted r v) = do
    on_middleware s.name (count_in 1)
    answer ← attempt (ask (λ h. s.future h v))
    settle_future r answer

  abbrev settle_submit : SourceRecord → Value → Result (Unit {0}) → Exec (Option BufferedEntry)
  settle_submit r v (ok t) = pure (some (submitted r v))
  settle_submit r v (err e) = pure (some (immediate r (stage_failure r e)))

  -- `_submit_single_buffered_record`
  unfoldable pub submit_buffered : SourceRecord → Value → Exec (Option BufferedEntry)
  submit_buffered r v = do
    answer ← attempt (ask (λ h. answered (s.submit h v)))
    settle_submit r v answer

  abbrev after_prefix : SourceRecord → Outcome → Exec (Option BufferedEntry)
  after_prefix r (none, f) = do dispatch r (none, f); pure none
  after_prefix r (some v, f) = submit_buffered r v

  -- A record that the prefix drops, or fails on, is dispatched at once.
  unfoldable pub arrive_buffered : SourceRecord → Exec (Option BufferedEntry)
  arrive_buffered r = do outcome ← process_outcome s.before r.raw; after_prefix r outcome

  abbrev is_ready : History → BufferedEntry → Bool
  is_ready h (submitted r v) = s.is_done h v
  is_ready h (immediate r f) = true

  abbrev pub buffered_pipeline : Option ℕ → Pipeline BufferedEntry
  buffered_pipeline max_buffer_size = record {
    resolve = resolve_buffered;
    done = is_ready;
    drain = s.drain_pending;
    stage_limit = limit_of s.concurrency max_buffer_size;
  }

  abbrev pub raise_aborted : Result (Unit {0}) → Exec (Unit {0})
  raise_aborted (ok t) = skip
  raise_aborted (err e) = do abort_pending_work; raise e

  -- An exception of the last `try` aborts the pending work.
  unfoldable pub or_abort : Exec (Unit {0}) → Exec (Unit {0})
  or_abort m = do answer ← attempt m; raise_aborted answer

  abbrev pub finish_run : Pipeline BufferedEntry → List BufferedEntry → Exec (Unit {0})
  finish_run p rest = or_abort (do Pipelined.drain_pending p rest; flush_pending_writes g)

  abbrev pub after_records : Pipeline BufferedEntry → Left BufferedEntry → Exec (Unit {0})
  after_records p (ok t, rest) = finish_run p rest
  after_records p (err e, rest) =
      if is_fatal e then (do abort_pending_work; raise e) else (do finish_run p rest; raise e)

  -- `_run_single_buffered_stage`
  unfoldable pub run_buffered : Option ℕ → List SourceRecord → Option Exc → Exec (Unit {0})
  run_buffered max_buffer_size rs end = do
    left ← feed (buffered_pipeline max_buffer_size) arrive_buffered [] rs end
    after_records (buffered_pipeline max_buffer_size) left
