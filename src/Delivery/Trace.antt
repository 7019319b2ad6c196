-- ===== src/Delivery/Trace.antt =====
-- What an action adds to the log of calls. `Steps P m`: from every state, `m` only adds events that
-- satisfy `P`, whether it returns or raises.
pub mod Actions
pub mod Stores
use agora_etl.Prelude.{
  ℕ, Bool, true, false, ◌&&◌, Option, none, some, List, [], ◌∷◌, ◌++◌, ◌≡◌, refl, sym, ap, ◌∙◌,
  arith, if◌then◌else◌,
}
use mathlib.Core.List.{append_assoc}
use agora_etl.Failures.{Exc, Result, ok, err}
use agora_etl.Delivery.World.{World, Event, History, Metrics, CheckpointState}
use agora_etl.Delivery.Exec.{
  Exec, pure, raise, attempt, modify, gets, skip, resume, perform, notify, ◌>>=◌, ◌>>◌,
}
use agora_etl.Delivery.Calls.{on_metrics}
use agora_etl.Delivery.Checkpoints.{on_state}

abbrev pub every : (Event → Bool) → History → Bool
every P [] = true
every P (x ∷ xs) = P x && every P xs

pub every-append :
    (P : Event → Bool) (xs ys : History)
    → every P xs ≡ true
    → every P ys ≡ true
    → every P (xs ++ ys) ≡ true
every-append P [] ys h k = k
every-append P (x ∷ xs) ys h k = ground (arith, every-append P xs ys)

-- The log of `w'` is that of `w` under newer events, all of which satisfy `P`.
pub record Emits (P : Event → Bool) (w w' : World) : Type 0 where
  pub new : History
  pub split : w'.log ≡ new ++ w.log
  pub only : every P new ≡ true

module _ {P : Event → Bool} where
  pub Emits-refl : (w : World) → Emits P w w
  Emits-refl w = record { new = []; split = refl; only = refl }

  pub Emits_same : {w w' : World} → w'.log ≡ w.log → Emits P w w'
  Emits_same e = record { new = []; split = e; only = refl }

  unfoldable pub Emits-trans : {u v w : World} → Emits P u v → Emits P v w → Emits P u w
  Emits-trans {u} a b = record {
    new = b.new ++ a.new;
    split = b.split ∙ ap (λ l. b.new ++ l) a.split ∙ sym (append_assoc b.new a.new u.log);
    only = every-append P b.new a.new b.only a.only;
  }

  Emits_one : (ev : Event) (w : World) → P ev ≡ true → Emits P w (record w { log = ev ∷ w.log })
  Emits_one ev w h = record { new = ev ∷ []; split = refl; only = ground arith }

pub record Steps {A : Type 0} (P : Event → Bool) (m : Exec A) : Type 0 where
  pub at : (w : World) → Emits P w (m w).1

module _ {A : Type 0} {P : Event → Bool} where
  pub Steps-pure : (a : A) → Steps P (pure a)
  unfolding pure
  Steps-pure a = record { at = λ w. Emits-refl w }

  pub Steps-raise : (e : Exc) → Steps P (raise {A = A} e)
  unfolding raise
  Steps-raise e = record { at = λ w. Emits-refl w }

  pub Steps-gets : (f : World → A) → Steps P (gets f)
  unfolding gets
  Steps-gets f = record { at = λ w. Emits-refl w }

  pub Steps-attempt : {m : Exec A} → Steps P m → Steps P (attempt m)
  unfolding attempt
  Steps-attempt s = record { at = λ w. s.at w }

  pub Steps-perform :
      (f : History → Result A) (event : Result A → Event)
      → ((r : Result A) → P (event r) ≡ true)
      → Steps P (perform f event)
  unfolding perform
  Steps-perform f event h = record { at = λ w. Emits_one (event (f w.log)) w (h (f w.log)) }

  pub Steps-if : (b : Bool) {m n : Exec A} → Steps P m → Steps P n → Steps P (if b then m else n)
  Steps-if true s t = s
  Steps-if false s t = t

module _ {A B : Type 0} {P : Event → Bool} where
  Steps-resume :
      (r : Result A) (f : A → Exec B) (w : World)
      → ((a : A) → Steps P (f a))
      → Emits P w (resume r f w).1
  Steps-resume (ok a) f w t = (t a).at w
  Steps-resume (err e) f w t = Emits-refl w

  pub Steps-bind :
      (m : Exec A) (f : A → Exec B) → Steps P m → ((a : A) → Steps P (f a)) → Steps P (m >>= f)
  unfolding ◌>>=◌
  Steps-bind m f s t = record {
    at = λ w. let (r, w') = m w in Emits-trans (s.at w) (Steps-resume r f w' t);
  }

module _ {P : Event → Bool} where
  pub Steps-skip : Steps P skip
  unfolding skip
  Steps-skip = record { at = λ w. Emits-refl w }

  pub Steps-notify :
      (f : History → Option Exc) (event : Option Exc → Event)
      → ((r : Option Exc) → P (event r) ≡ true)
      → Steps P (notify f event)
  unfolding notify
  Steps-notify f event h = record { at = λ w. Emits_one (event (f w.log)) w (h (f w.log)) }

  pub Steps-modify : (f : World → World) → ((w : World) → (f w).log ≡ w.log) → Steps P (modify f)
  unfolding modify
  Steps-modify f h = record { at = λ w. Emits_same (h w) }

  pub Steps-on_metrics : (f : Metrics → Metrics) → Steps P (on_metrics f)
  Steps-on_metrics f = Steps-modify _ (λ w. refl)

  pub Steps-on_state : (f : CheckpointState → CheckpointState) → Steps P (on_state f)
  Steps-on_state f = Steps-modify _ (λ w. refl)

pub ruleset steps_rules = (
  Steps-pure, Steps-raise, Steps-gets, Steps-attempt, Steps-if, Steps-bind, Steps-skip,
  Steps-on_metrics, Steps-on_state,
)
