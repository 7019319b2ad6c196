-- ===== src/Backpressure/Tests.antt =====
-- The controller's theorems at concrete inputs.
use agora_etl.Prelude.{◌<◌, ◌≤◌, true, false, [], ◌∷◌, ◌≡◌, arith}
use mathlib.Core.Logic.{◌↔◌}
use agora_etl.Backpressure.{Controller, RuntimeMetrics, deltas, any_slow, all_fast, observe}
use agora_etl.Backpressure.Bounds.{
  InRange, observe_all, any_work, observe_all-InRange, observe_moves,
}

abbrev narrow : Controller
narrow = record {
  current_limit = 8;
  min_limit = 4;
  max_limit = 10;
  scale_up_step = 4;
  scale_down_step = 8;
  writer_slow_ms = 200;
  checkpoint_slow_ms = 100;
  last_writer_flush_count = 0;
  last_writer_flush_time_ms = 0;
  last_checkpoint_save_count = 0;
  last_checkpoint_save_time_ms = 0;
}

narrow-InRange : InRange narrow
narrow-InRange = record { above = omega arith; below = omega arith }

-- Two flushes of 500 ms in all: slow.
abbrev slow_flushes : RuntimeMetrics
slow_flushes = record {
  writer_flush_count = 2;
  writer_flush_time_ms = 500;
  checkpoint_save_count = 0;
  checkpoint_save_time_ms = 0;
  scale_down_count = 0;
  scale_up_count = 0;
}

-- Then two more that took no time: fast.
abbrev fast_flushes : RuntimeMetrics
fast_flushes = record slow_flushes { writer_flush_count = 4 }

observe_all-InRange_example :
    InRange (observe_all narrow ((slow_flushes, 0) ∷ (fast_flushes, 20) ∷ []))
observe_all-InRange_example =
    observe_all-InRange narrow ((slow_flushes, 0) ∷ (fast_flushes, 20) ∷ []) narrow-InRange

limit_moves :
    (((observe narrow slow_flushes 0).0.current_limit < 8)
      ↔ ((any_slow (deltas narrow slow_flushes) narrow ≡ true) × (4 < 8)))
    × ((8 < (observe narrow slow_flushes 0).0.current_limit) ↔ (
        (any_work (deltas narrow slow_flushes) ≡ true)
        × (any_slow (deltas narrow slow_flushes) narrow ≡ false)
        × (all_fast (deltas narrow slow_flushes) narrow ≡ true)
        × (8 ≤ 0)
        × (8 < 10)))
limit_moves = observe_moves narrow slow_flushes 0 narrow-InRange (omega arith) (omega arith)
