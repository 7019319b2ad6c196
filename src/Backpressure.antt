-- ===== src/Backpressure.antt =====
-- core/runtime/_buffered_backpressure.py: `AdaptiveBackpressureController`. Times are milliseconds on
-- a common scale, and an average is compared by cross-multiplication, `time / count ≥ slow` as
-- `slow * count ≤ time`: the rounding of floats is left out. The metrics only grow.
mod Bounds
mod Tests
use agora_etl.Prelude.{
  ℕ, ◌+◌, ◌-◌, ◌*◌, min, max, Bool, true, false, ◌&&◌, ◌||◌, not, ltb, leb, ◌==◌, if◌then◌else◌,
}

pub record Controller : Type 0 where
  pub current_limit : ℕ
  pub min_limit : ℕ
  pub max_limit : ℕ
  pub scale_up_step : ℕ
  pub scale_down_step : ℕ
  pub writer_slow_ms : ℕ
  pub checkpoint_slow_ms : ℕ
  pub last_writer_flush_count : ℕ
  pub last_writer_flush_time_ms : ℕ
  pub last_checkpoint_save_count : ℕ
  pub last_checkpoint_save_time_ms : ℕ

pub record RuntimeMetrics : Type 0 where
  pub writer_flush_count : ℕ
  pub writer_flush_time_ms : ℕ
  pub checkpoint_save_count : ℕ
  pub checkpoint_save_time_ms : ℕ
  pub scale_down_count : ℕ
  pub scale_up_count : ℕ

-- `avg >= slow` and `avg <= slow / 4`, for the average of `time` over `count`
abbrev pub is_slow : ℕ → ℕ → ℕ → Bool
is_slow count time slow = ltb 0 count && leb (slow * count) time

abbrev pub is_fast : ℕ → ℕ → ℕ → Bool
is_fast count time slow = count == 0 || leb (4 * time) (slow * count)

unfoldable pub remember : RuntimeMetrics → Controller → Controller
remember m c = record c {
  last_writer_flush_count = m.writer_flush_count;
  last_writer_flush_time_ms = m.writer_flush_time_ms;
  last_checkpoint_save_count = m.checkpoint_save_count;
  last_checkpoint_save_time_ms = m.checkpoint_save_time_ms;
}

unfoldable pub scale_down : Controller → RuntimeMetrics → Controller × RuntimeMetrics
scale_down c m =
    let next = max c.min_limit (c.current_limit - c.scale_down_step) in
    if ltb next c.current_limit
    then (record c { current_limit = next }, record m { scale_down_count = m.scale_down_count + 1 })
    else (c, m)

unfoldable pub scale_up : Controller → RuntimeMetrics → Controller × RuntimeMetrics
scale_up c m =
    let next = min c.max_limit (c.current_limit + c.scale_up_step) in
    if ltb c.current_limit next
    then (record c { current_limit = next }, record m { scale_up_count = m.scale_up_count + 1 })
    else (c, m)

-- The four differences since the last observation.
pub record Deltas : Type 0 where
  pub flushes : ℕ
  pub flush_time : ℕ
  pub saves : ℕ
  pub save_time : ℕ

unfoldable pub deltas : Controller → RuntimeMetrics → Deltas
deltas c m = record {
  flushes = m.writer_flush_count - c.last_writer_flush_count;
  flush_time = m.writer_flush_time_ms - c.last_writer_flush_time_ms;
  saves = m.checkpoint_save_count - c.last_checkpoint_save_count;
  save_time = m.checkpoint_save_time_ms - c.last_checkpoint_save_time_ms;
}

abbrev pub any_slow : Deltas → Controller → Bool
any_slow d c =
    is_slow d.flushes d.flush_time c.writer_slow_ms
    || is_slow d.saves d.save_time c.checkpoint_slow_ms

abbrev pub all_fast : Deltas → Controller → Bool
all_fast d c =
    is_fast d.flushes d.flush_time c.writer_slow_ms
    && is_fast d.saves d.save_time c.checkpoint_slow_ms

unfoldable pub decide : Deltas → Controller → RuntimeMetrics → ℕ → Controller × RuntimeMetrics
decide d c m pending_count =
    if not (ltb 0 d.flushes || ltb 0 d.saves)
    then (c, m)
    else if any_slow d c
    then scale_down c m
    else if leb c.current_limit pending_count && all_fast d c
    then scale_up c m
    else (c, m)

-- The limit that it returns is the new `current_limit`.
unfoldable pub observe : Controller → RuntimeMetrics → ℕ → Controller × RuntimeMetrics
observe c m pending_count = decide (deltas c m) (remember m c) m pending_count
