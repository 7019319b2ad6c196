-- ===== src/Lanes/Pipelined/Commits.antt =====
-- A pipelined run against the run that commits one batch after another.
use agora_etl.Prelude.{
  ℕ, zero, suc, Bool, true, Option, none, some, List, [], ◌∷◌, length, map, ◌≡◌, refl, sym, ◌∙◌,
  arith,
}
use mathlib.Core.Path.{subst}
use agora_etl.Failures.{Result, ok, err}
use agora_etl.Delivery.World.{World, History}
use agora_etl.Delivery.Exec.{Exec, raise, resume, ◌>>=◌}
use agora_etl.Delivery.Exec.Returns.{bind_on}
use agora_etl.Lanes.Pipelined.{
  Pipeline, Left, is_fatal, if_ok, commit_next, drain_ready, feed, drain_all, raise_error,
  drain_pending, after_source, run_pipelined,
}
use agora_etl.Lanes.Pipelined.Order.{
  in_order, finish, after, then_finish, pure_finish, drain_ready-finish, commit_next-finish,
  feed-finish,
}
use agora_etl.Lanes.Pipelined.Room.{Below, drain_all-Below}

-- A run that ended well, or with an exception on which the lane cancels what is pending.
abbrev pub is_final : Result (Unit {0}) → Bool
is_final (ok t) = true
is_final (err e) = is_fatal e

module _ {E : Type 0} (p : Pipeline E) (drains : (h : History) → p.drain h ≡ none) where
  drain_step :
      (n : ℕ) (e : E) (es : List E) (w : World)
      → after p (drain_all p (suc n) (e ∷ es)) w
        ≡ after p
            (drain_ready p (e ∷ es) >>= λ left.
              if_ok left (λ rest. commit_next p rest >>= λ next. if_ok next (drain_all p n)))
            w
  unfolding drain_all ◌>>=◌
  drain_step n e es w = simp (drains w.log) refl

  drain_all-finish :
      (n : ℕ) (es : List E) (w : World) → after p (drain_all p n es) w ≡ in_order p.resolve es w
  unfolding drain_all
  drain_all-finish zero es w = pure_finish p es w
  drain_all-finish (suc n) [] w = pure_finish p [] w
  drain_all-finish (suc n) (e ∷ es) w =
      drain_step n e es w
      ∙ then_finish p (drain_ready p (e ∷ es)) _ w (λ rest u.
        then_finish p (commit_next p rest) _ u (drain_all-finish n) ∙ commit_next-finish p rest u)
      ∙ drain_ready-finish p (e ∷ es) w

  left_same : (left : Left E) (u : World) → Below 1 left → raise_error p left u ≡ finish p left u
  unfolding in_order
  left_same (ok t, []) u h = refl
  left_same (ok t, x ∷ xs) u h = let no : ⊥ = omega (arith, h) in elim no [ ]
  left_same (err e, rest) u h = refl

  pub drain_pending-in_order :
      (es : List E) (w : World) → drain_pending p es w ≡ in_order p.resolve es w
  drain_pending-in_order es w =
      bind_on (Below 1) (drain_all p (length es) es) (raise_error p) (finish p) w
        (drain_all-Below p (length es) es (omega arith)) (left_same)
      ∙ drain_all-finish (length es) es w

  module _ (goal : Result (Unit {0}) × World) (final : is_final goal.0 ≡ true) where
    after_source-goal :
        (r : Result (Left E)) (u : World)
        → resume r (finish p) u ≡ goal
        → resume r (after_source p) u ≡ goal
    unfolding raise
    after_source-goal (ok (ok t, rest)) u h = drain_pending-in_order rest u ∙ h
    after_source-goal (ok (err e, rest)) u h =
        let fatal : is_fatal e ≡ true =
          subst (λ (x : Result (Unit {0}) × World). is_final x.0 ≡ true) (sym h) final in
        simp fatal h
    after_source-goal (err e) u h = h

  module _ {B : Type 0} (arrive : B → Exec (Option E)) (entry : B → E)
      (submits : (b : B) (w : World) → arrive b w ≡ (ok (some (entry b)), w)) where
    pub run_pipelined-in_order :
        (bs : List B) (w : World)
        → is_final (in_order p.resolve (map entry bs) w).0 ≡ true
        → run_pipelined p arrive bs none w ≡ in_order p.resolve (map entry bs) w
    unfolding run_pipelined ◌>>=◌
    run_pipelined-in_order bs w final =
        let (r, u) = feed p arrive [] bs none w in
        after_source-goal (in_order p.resolve (map entry bs) w) final r u
          (feed-finish p arrive entry submits bs [] w)
