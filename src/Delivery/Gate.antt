-- ===== src/Delivery/Gate.antt =====
-- The vocabulary of the commit gate: which events are held back until a record is handled, and how
-- a fact about each step of a `do` block gives a fact about the block.
pub mod Answers
pub mod Routing
pub mod Outcomes
pub mod Records
use agora_etl.Prelude.{
  Bool, true, false, ◌&&◌, List, [], ◌∷◌, ◌++◌, ◌≡◌, refl, sym, ap, ◌∙◌, ◌⊎◌, inl, inr, arith,
}
use mathlib.Core.List.{append_assoc}
use agora_etl.Failures.{Exc, Result, ok, err}
use agora_etl.Delivery.World.{World, Event, checkpoint_sent, hook_called, History}
use agora_etl.Delivery.Exec.{Exec, attempt, resume, ◌>>=◌}
use agora_etl.Delivery.Trace.{every, every-append, Emits, Emits-trans, Steps}

-- Neither a call of the checkpoint store nor a call of a success hook.
abbrev pub is_quiet : Event → Bool
is_quiet (checkpoint_sent _ _) = false
is_quiet (hook_called _ _) = false
is_quiet _ = true

abbrev pub any_event : Event → Bool
any_event _ = true

abbrev pub Any : (Event → Type 0) → History → Type 0
Any Q [] = ⊥
Any Q (x ∷ xs) = Q x ⊎ Any Q xs

pub Any-append_left : (Q : Event → Type 0) (xs ys : History) → Any Q xs → Any Q (xs ++ ys)
Any-append_left Q [] ys h = elim h [ ]
Any-append_left Q (x ∷ xs) ys (inl q) = inl q
Any-append_left Q (x ∷ xs) ys (inr a) = inr (Any-append_left Q xs ys a)

pub Any-append_right : (Q : Event → Type 0) (xs ys : History) → Any Q ys → Any Q (xs ++ ys)
Any-append_right Q [] ys a = a
Any-append_right Q (x ∷ xs) ys a = inr (Any-append_right Q xs ys a)

abbrev pub Quiet : World → World → Type 0
Quiet = Emits is_quiet

-- Only quiet events were added, and one of them is of the kind `Q`.
pub record Shows (Q : Event → Type 0) (w w' : World) : Type 0 where
  pub quiet : Quiet w w'
  pub shown : Any Q quiet.new

module _ {Q : Event → Type 0} where
  pub Shows-then : {u v w : World} → Shows Q u v → Quiet v w → Shows Q u w
  unfolding Emits-trans
  Shows-then s q = record {
    quiet = Emits-trans s.quiet q;
    shown = Any-append_right Q q.new s.quiet.new s.shown;
  }

  pub Shows-after : {u v w : World} → Quiet u v → Shows Q v w → Shows Q u w
  unfolding Emits-trans
  Shows-after q s = record {
    quiet = Emits-trans q s.quiet;
    shown = Any-append_left Q s.quiet.new q.new s.shown;
  }

-- After `m` from any state `u`, what `R` says of `u`, the result and the new state.
pub record Ensures {A : Type 0} (m : Exec A) (R : World → Result A → World → Type 0) : Type 0 where
  pub at : (u : World) → R u (m u).0 (m u).1

-- The usual shape: `Q` of a result, and quiet events alone where `m` raises.
abbrev pub Ended : {A : Type 0} → (A → World → World → Type 0) → World → Result A → World → Type 0
Ended Q u (ok a) w = Q a u w
Ended Q u (err e) w = Quiet u w

module _ {A B : Type 0} where
  resume-Ensures :
      (Q : A → World → World → Type 0) (R : World → Result B → World → Type 0) (f : A → Exec B)
      (u : World) (r : Result A) (w : World)
      → ((a : A) (v : World) → Q a u v → R u (f a v).0 (f a v).1)
      → ((e : Exc) (v : World) → Quiet u v → R u (err e) v)
      → Ended Q u r w
      → R u (resume r f w).0 (resume r f w).1
  resume-Ensures Q R f u (ok a) w h k q = h a w q
  resume-Ensures Q R f u (err e) w h k q = k e w q

  -- The same from one state `m`, where more is known of the state than `Q` says.
  pub bind_ends :
      (n : Exec A) (f : A → Exec B) (Q : A → World → World → Type 0) (R : Result B → World → Type 0)
      (m : World)
      → Ended Q m (n m).0 (n m).1
      → ((a : A) (v : World) → Q a m v → R (f a v).0 (f a v).1)
      → ((e : Exc) (v : World) → Quiet m v → R (err e) v)
      → R ((n >>= f) m).0 ((n >>= f) m).1
  unfolding ◌>>=◌
  bind_ends n f Q R m q h k = resume-Ensures Q (λ u r w. R r w) f m (n m).0 (n m).1 h k q

  pub Ensures-bind :
      (m : Exec A) (f : A → Exec B) (Q : A → World → World → Type 0)
      (R : World → Result B → World → Type 0)
      → Ensures m (Ended Q)
      → ((a : A) (u v : World) → Q a u v → R u (f a v).0 (f a v).1)
      → ((e : Exc) (u v : World) → Quiet u v → R u (err e) v)
      → Ensures (m >>= f) R
  unfolding ◌>>=◌
  Ensures-bind m f Q R s h k = record {
    at = λ u. resume-Ensures Q R f u (m u).0 (m u).1 (λ a v. h a u v) (λ e v. k e u v) (s.at u);
  }

module _ {A : Type 0} where
  attempt-Ended :
      (Q : A → World → World → Type 0) (u w : World) (r : Result A)
      → Ended Q u r w
      → Ended (λ x u' w'. Ended Q u' x w') u (ok r) w
  attempt-Ended Q u w r h = h

  pub Ensures-attempt :
      (m : Exec A) (Q : A → World → World → Type 0)
      → Ensures m (Ended Q)
      → Ensures (attempt m) (Ended (λ x u w. Ended Q u x w))
  unfolding attempt
  Ensures-attempt m Q s = record { at = λ u. attempt-Ended Q u (m u).1 (m u).0 (s.at u) }

  steps-Ended :
      (u w : World) (r : Result A) → Quiet u w → Ended (λ (a : A) u' w'. Quiet u' w') u r w
  steps-Ended u w (ok a) q = q
  steps-Ended u w (err e) q = q

  -- An action that adds quiet events alone.
  pub Ensures-Quiet : (m : Exec A) → Steps is_quiet m → Ensures m (Ended (λ a u w. Quiet u w))
  Ensures-Quiet m s = record { at = λ u. steps-Ended u (m u).1 (m u).0 (s.at u) }
