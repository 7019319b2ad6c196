-- ===== src/Delivery/Exec/Returns.antt =====
-- Actions that return, from every state, a result that satisfies a predicate.
use agora_etl.Prelude.{Bool, true, false, ◌≡◌, refl, sym, if◌then◌else◌}
use mathlib.Core.Path.{subst}
use agora_etl.Failures.{Result, ok}
use agora_etl.Delivery.World.{World}
use agora_etl.Delivery.Exec.{Exec, pure, attempt, modify, gets, skip, resume, ◌>>=◌}

pub record Gives {A : Type 0} (Q : A → Type 0) (r : Result A) : Type 0 where
  pub value : A
  pub is_ok : r ≡ ok value
  pub holds : Q value

pub record Returns {A : Type 0} (m : Exec A) (Q : A → Type 0) : Type 0 where
  pub at : (w : World) → Gives Q (m w).0

abbrev pub Always : {A : Type 0} → A → Type 0
Always a = Unit {0}

module _ {A : Type 0} where
  pub Returns-pure : (Q : A → Type 0) (a : A) → Q a → Returns (pure a) Q
  unfolding pure
  Returns-pure Q a h = record { at = λ w. record { value = a; is_ok = refl; holds = h } }

  pub Returns-attempt : (m : Exec A) → Returns (attempt m) Always
  unfolding attempt
  Returns-attempt m = record { at = λ w. record { value = (m w).0; is_ok = refl; holds = tt } }

pub Returns-modify : (f : World → World) → Returns (modify f) Always
unfolding modify
Returns-modify f = record { at = λ w. record { value = tt; is_ok = refl; holds = tt } }

module _ {A B : Type 0} (P : A → Type 0) (Q : B → Type 0) where
  Gives-resume :
      (r : Result A) (f : A → Exec B) (w : World)
      → Gives P r
      → ((a : A) → P a → Returns (f a) Q)
      → Gives Q (resume r f w).0
  Gives-resume r f w h k =
      subst (λ x. Gives Q (resume x f w).0) (sym h.is_ok) ((k h.value h.holds).at w)

  pub Returns-bind :
      (m : Exec A) (f : A → Exec B)
      → Returns m P
      → ((a : A) → P a → Returns (f a) Q)
      → Returns (m >>= f) Q
  unfolding ◌>>=◌
  Returns-bind m f h k = record { at = λ w. Gives-resume (m w).0 f (m w).1 (h.at w) k }

module _ {A B : Type 0} where
  pub Returns-then :
      (m : Exec A) (f : A → Exec B)
      → Returns m Always
      → ((a : A) → Returns (f a) Always)
      → Returns (m >>= f) Always
  Returns-then m f h k = Returns-bind Always Always m f h (λ a t. k a)

pub Returns-if :
    {A : Type 0} {Q : A → Type 0} (b : Bool) {m n : Exec A}
    → Returns m Q
    → Returns n Q
    → Returns (if b then m else n) Q
Returns-if true h k = h
Returns-if false h k = k

-- Each branch may use the test.
pub Returns-if_known :
    {A : Type 0} {Q : A → Type 0} (b : Bool) {m n : Exec A}
    → (b ≡ true → Returns m Q)
    → (b ≡ false → Returns n Q)
    → Returns (if b then m else n) Q
Returns-if_known true h k = h refl
Returns-if_known false h k = k refl

pub Returns-gets : {A : Type 0} (f : World → A) → Returns (gets f) Always
unfolding gets
Returns-gets f = record { at = λ w. record { value = f w; is_ok = refl; holds = tt } }

pub Returns-skip : Returns skip Always
unfolding skip
Returns-skip = record { at = λ w. record { value = tt; is_ok = refl; holds = tt } }

pub Returns-any : {A : Type 0} (a : A) → Returns (pure a) Always
Returns-any a = Returns-pure Always a tt

pub ruleset returns_rules =
    (Returns-then, Returns-if, Returns-skip, Returns-any, Returns-modify, Returns-attempt)

module _ {A B : Type 0} (Q : A → Type 0) where
  resume_on :
      (r : Result A) (f k : A → Exec B) (w : World)
      → Gives Q r
      → ((a : A) (u : World) → Q a → f a u ≡ k a u)
      → resume r f w ≡ resume r k w
  resume_on r f k w h same =
      subst (λ x. resume x f w ≡ resume x k w) (sym h.is_ok) (same h.value w h.holds)

  -- Binds of continuations that do the same on what the action returns.
  pub bind_on :
      (m : Exec A) (f k : A → Exec B) (w : World)
      → Returns m Q
      → ((a : A) (u : World) → Q a → f a u ≡ k a u)
      → (m >>= f) w ≡ (m >>= k) w
  unfolding ◌>>=◌
  bind_on m f k w h same = let (r, u) = m w in resume_on r f k u (h.at w) same
