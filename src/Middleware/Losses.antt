-- ===== src/Middleware/Losses.antt =====
-- What a failing record of a batch leaves behind, against the same record on its own.
use agora_etl.Prelude.{Option, none, some, List, [], ◌∷◌, length, ◌≡◌, refl, ap, suc, ℕ}
use mathlib.Core.Path.{subst}
use agora_etl.Failures.{Exc, Result, ok, err}
use agora_etl.Delivery.Types.{Value}
use agora_etl.Delivery.World.{World}
use agora_etl.Delivery.Exec.Returns.{
  Returns, Always, Returns-pure, Returns-attempt, Returns-modify, Returns-bind, Returns-if,
  Returns-then, Returns-any, returns_rules,
}
use agora_etl.Delivery.Calls.{transfer_success_hooks}
use agora_etl.Delivery.Exec.{Exec, ◌>>=◌}
use agora_etl.Middleware.{
  Stage, custom, sync_map, sync_filter, batch_stage, Middleware, BatchResult, batch_results,
  batch_failure, apply_each, apply_fast, fast_loop, apply_in_batch, process_batch_range,
  process_stage, middleware_failure, settle_stage, process_range, process_outcome, on_middleware,
  count_in, count_errored, Counts, settle_fast, no_counts, go_on,
}

-- The state in which the chain asks the first middleware for its result.
abbrev asked : Middleware → World → World
asked m w = (on_middleware m.name (count_in 1) w).1

-- And where the middleware raised.
abbrev failed_in : Middleware → Value → World → World
failed_in m v w = (on_middleware m.name (count_errored 1) (process_stage m.stage v (asked m w)).1).1

row_failure :
    (m : Middleware) (ms : List Middleware) (v : Value) (e : Exc) (w : World)
    → (process_stage m.stage v (asked m w)).0 ≡ err e
    → (m.on_error v e (failed_in m v w)).0 ≡ ok tt
    → (process_outcome (m ∷ ms) v w).0 ≡ ok (none, some (middleware_failure m v e))
unfolding process_outcome process_range ◌>>=◌
row_failure m ms v e w raised handled = simp (raised, handled) refl

-- No middleware of the chain takes whole batches, and `on_error` raises nothing, as the default does.
abbrev pub PerRecord : Stage → Type 0
PerRecord (batch_stage f) = ⊥
PerRecord _ = Unit {0}

pub record IsPerRecord (m : Middleware) : Type 0 where
  pub per_record : PerRecord m.stage
  pub handles : (v : Value) (e : Exc) → Returns (m.on_error v e) Always

abbrev pub AllPerRecord : List Middleware → Type 0
AllPerRecord [] = Unit {0}
AllPerRecord (m ∷ ms) = IsPerRecord m × AllPerRecord ms

-- As many results as there were records, and no failure.
abbrev WithLength : ℕ → BatchResult → Type 0
WithLength n (batch_failure f) = ⊥
WithLength n (batch_results results) = length results ≡ n

abbrev pub HasResults : List (Option Value) → BatchResult → Type 0
HasResults rs = WithLength (length rs)

abbrev SameLength : List (Option Value) → List (Option Value) → Type 0
SameLength rs results = length results ≡ length rs

transfer_returns : (u v : Value) → Returns (transfer_success_hooks u v) Always
unfolding transfer_success_hooks
transfer_returns u v = search returns_rules

module _ (m : Middleware) (h : IsPerRecord m) where
  settle_returns :
      (v : Value) (a : Result (Option Value))
      → Returns (settle_stage m v v (process_range [] v) a) Always
  unfolding process_range
  settle_returns v (err e) =
      Returns-then _ _ (Returns-modify _)
        (λ a. Returns-then _ _ (h.handles v e) (λ b. Returns-any _))
  settle_returns v (ok none) = Returns-then _ _ (Returns-modify _) (λ b. Returns-any _)
  settle_returns v (ok (some u)) =
      Returns-then _ _ (transfer_returns v u)
        (λ a. Returns-then _ _ (Returns-modify _) (λ b. Returns-any _))

  one_returns : (v : Value) → Returns (process_range (m ∷ []) v v) Always
  unfolding process_range
  one_returns v =
      Returns-then _ _ (Returns-modify _)
        (λ a. Returns-then _ _ (Returns-attempt _) (settle_returns v))

  -- A failure of a record leaves `None` where it was.
  apply_each-SameLength : (rs : List (Option Value)) → Returns (apply_each m rs) (SameLength rs)
  unfolding apply_each
  apply_each-SameLength [] = Returns-pure _ _ refl
  apply_each-SameLength (none ∷ rs) =
      Returns-bind _ _ _ _ (apply_each-SameLength rs) (λ a k. Returns-pure _ _ (ap suc k))
  apply_each-SameLength (some v ∷ rs) =
      Returns-bind _ _ _ _ (one_returns v) (λ o t.
        Returns-bind _ _ _ _ (apply_each-SameLength rs) (λ a k. Returns-pure _ _ (ap suc k)))

  settle_fast_returns :
      (v : Value) (n : Counts) (a : Result (Option Value)) → Returns (settle_fast m v n a) Always
  settle_fast_returns v n (err e) = Returns-then _ _ (h.handles v e) (λ b. Returns-any _)
  settle_fast_returns v n (ok r) = Returns-any _

  fast_loop_length :
      (f : Value → Exec (Option Value)) (n : Counts) (rs : List (Option Value))
      → Returns (fast_loop m f n rs) (λ p. SameLength rs p.0)
  unfolding fast_loop
  fast_loop_length f n [] = Returns-pure _ _ refl
  fast_loop_length f n (none ∷ rs) =
      Returns-bind _ _ _ _ (fast_loop_length f n rs) (λ p k. Returns-pure _ _ (ap suc k))
  fast_loop_length f n (some v ∷ rs) = Returns-bind _ _ _ _ (Returns-attempt (f v)) (λ a t.
      Returns-bind _ _ _ _ (settle_fast_returns v n a) (λ q u.
        Returns-bind _ _ _ _ (fast_loop_length f q.1 rs) (λ p k. Returns-pure _ _ (ap suc k))))

  apply_fast-SameLength :
      (f : Value → Exec (Option Value)) (rs : List (Option Value))
      → Returns (apply_fast m f rs) (SameLength rs)
  unfolding apply_fast
  apply_fast-SameLength f rs = Returns-if _ (Returns-pure _ _ refl) (
      Returns-bind _ _ _ _ (Returns-modify _) (λ a t.
        Returns-bind _ _ _ _ (fast_loop_length f no_counts rs)
          (λ p k. Returns-bind _ _ _ _ (Returns-modify _) (λ b u. Returns-pure _ _ k))))

  stage-HasResults :
      (s : Stage)
      → PerRecord s
      → (rs : List (Option Value)) → Returns (apply_in_batch m s rs) (HasResults rs)
  unfolding apply_in_batch
  stage-HasResults (custom f) p rs =
      Returns-bind _ _ _ _ (apply_each-SameLength rs) (λ a k. Returns-pure _ _ k)
  stage-HasResults (sync_map f) p rs =
      Returns-bind _ _ _ _ (apply_fast-SameLength f rs) (λ a k. Returns-pure _ _ k)
  stage-HasResults (sync_filter f) p rs =
      Returns-bind _ _ _ _ (apply_fast-SameLength _ rs) (λ a k. Returns-pure _ _ k)
  stage-HasResults (batch_stage f) p rs = elim p [ ]

go_on-HasResults :
    (next : List (Option Value) → Exec BatchResult) (rs : List (Option Value)) (b : BatchResult)
    → HasResults rs b
    → ((results : List (Option Value)) → Returns (next results) (HasResults results))
    → Returns (go_on next b) (HasResults rs)
go_on-HasResults next rs (batch_failure f) k n = elim k [ ]
go_on-HasResults next rs (batch_results results) k n =
    subst (λ l. Returns (next results) (WithLength l)) k (n results)

-- Where every middleware works record by record and `on_error` raises nothing, a batch gets as many
-- results as it has records, and no failure, whatever the middlewares raise.
pub process_batch_range-HasResults :
    (ms : List Middleware) (rs : List (Option Value))
    → AllPerRecord ms
    → Returns (process_batch_range ms rs) (HasResults rs)
unfolding process_batch_range
process_batch_range-HasResults [] rs h = Returns-pure _ _ refl
process_batch_range-HasResults (m ∷ ms) rs h =
    Returns-bind _ _ _ _ (stage-HasResults m h.0 m.stage h.0.per_record rs) (λ a k.
      go_on-HasResults (process_batch_range ms) rs a k
        (λ results. process_batch_range-HasResults ms results h.1))
