-- ===== src/Backpressure/Bounds.antt =====
-- The range of the limit, and what moves it.
use agora_etl.Prelude.{ℕ, ◌≤◌, ◌<◌, Bool, true, false, ◌||◌, ltb, List, [], ◌∷◌, ◌≡◌, ◌↔◌, arith}
use agora_etl.Backpressure.{
  Controller, RuntimeMetrics, Deltas, deltas, any_slow, all_fast, remember, scale_down, scale_up,
  decide, observe,
}

pub record InRange (c : Controller) : Type 0 where
  pub above : c.min_limit ≤ c.current_limit
  pub below : c.current_limit ≤ c.max_limit

decide-InRange :
    (d : Deltas) (c : Controller) (m : RuntimeMetrics) (pending : ℕ)
    → InRange c
    → InRange (decide d c m pending).0
unfolding decide scale_down scale_up
decide-InRange d c m pending h = ground arith

-- The observations of a run: the metrics of each, and the number of pending records.
pub observe_all : Controller → List (RuntimeMetrics × ℕ) → Controller
observe_all c [] = c
observe_all c ((m, pending) ∷ rest) = observe_all (observe c m pending).0 rest

-- A limit that starts between its bounds stays there, whatever metrics and backlogs are observed.
pub observe_all-InRange :
    (c : Controller) (seen : List (RuntimeMetrics × ℕ)) → InRange c → InRange (observe_all c seen)
unfolding observe_all observe remember
observe_all-InRange c [] h = h
observe_all-InRange c ((m, pending) ∷ rest) h = observe_all-InRange (observe c m pending).0 rest (
    decide-InRange (deltas c m) (remember m c) m pending
      (record { above = h.above; below = h.below }))

-- A stage did work between the two observations.
abbrev pub any_work : Deltas → Bool
any_work d = ltb 0 d.flushes || ltb 0 d.saves

-- For a limit in range with positive steps, one observation: the limit falls exactly if a stage was
-- slow and the limit is above its minimum; it rises exactly if some stage ran, none was slow, all
-- that ran were fast, the backlog fills the limit and the limit is below its maximum.
pub observe_moves :
    (c : Controller) (m : RuntimeMetrics) (pending : ℕ)
    → InRange c
    → 0 < c.scale_down_step
    → 0 < c.scale_up_step
    → (((observe c m pending).0.current_limit < c.current_limit)
        ↔ ((any_slow (deltas c m) c ≡ true) × (c.min_limit < c.current_limit)))
      × ((c.current_limit < (observe c m pending).0.current_limit) ↔ (
          (any_work (deltas c m) ≡ true)
          × (any_slow (deltas c m) c ≡ false)
          × (all_fast (deltas c m) c ≡ true)
          × (c.current_limit ≤ pending)
          × (c.current_limit < c.max_limit)))
unfolding observe remember decide scale_down scale_up deltas
observe_moves c m pending h down up = (
  (λ k. ground arith, λ (k, l). ground arith),
  (λ k. ground arith, λ (k, l, n, o, p). ground arith),
)
