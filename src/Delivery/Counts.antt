-- ===== src/Delivery/Counts.antt =====
-- The run's account of its records: how many were counted as written, dropped or errored, and the
-- actions that leave this number alone.
use agora_etl.Prelude.{ℕ, ◌+◌, Bool, true, false, Option, ◌≡◌, refl, ◌∙◌, if◌then◌else◌}
use agora_etl.Failures.{Exc, Result, ok, err}
use agora_etl.Delivery.World.{World, Event, History, Metrics}
use agora_etl.Delivery.Exec.{
  Exec, pure, raise, attempt, modify, gets, skip, resume, perform, notify, ◌>>=◌,
}
use agora_etl.Delivery.Calls.{on_metrics}

abbrev pub counted : Metrics → ℕ
counted m = m.records_written + m.records_dropped + m.records_errored

abbrev pub total : World → ℕ
total w = counted w.metrics

pub record Keeps {A : Type 0} (m : Exec A) : Type 0 where
  pub at : (w : World) → total (m w).1 ≡ total w

module _ {A : Type 0} where
  pub Keeps-pure : (a : A) → Keeps (pure a)
  unfolding pure
  Keeps-pure a = record { at = λ w. refl }

  pub Keeps-raise : (e : Exc) → Keeps (raise {A = A} e)
  unfolding raise
  Keeps-raise e = record { at = λ w. refl }

  pub Keeps-gets : (f : World → A) → Keeps (gets f)
  unfolding gets
  Keeps-gets f = record { at = λ w. refl }

  pub Keeps-attempt : {m : Exec A} → Keeps m → Keeps (attempt m)
  unfolding attempt
  Keeps-attempt s = record { at = λ w. s.at w }

  pub Keeps-perform : (f : History → Result A) (event : Result A → Event) → Keeps (perform f event)
  unfolding perform
  Keeps-perform f event = record { at = λ w. refl }

  pub Keeps-if : (b : Bool) {m n : Exec A} → Keeps m → Keeps n → Keeps (if b then m else n)
  Keeps-if true s t = s
  Keeps-if false s t = t

module _ {A B : Type 0} where
  Keeps-resume :
      (r : Result A) (f : A → Exec B) (w : World)
      → ((a : A) → Keeps (f a))
      → total (resume r f w).1 ≡ total w
  Keeps-resume (ok a) f w t = (t a).at w
  Keeps-resume (err e) f w t = refl

  pub Keeps-bind :
      (m : Exec A) (f : A → Exec B) → Keeps m → ((a : A) → Keeps (f a)) → Keeps (m >>= f)
  unfolding ◌>>=◌
  Keeps-bind m f s t = record { at = λ w. let (r, w') = m w in Keeps-resume r f w' t ∙ s.at w }

pub Keeps-skip : Keeps skip
unfolding skip
Keeps-skip = record { at = λ w. refl }

pub Keeps-notify : (f : History → Option Exc) (event : Option Exc → Event) → Keeps (notify f event)
unfolding notify
Keeps-notify f event = record { at = λ w. refl }

pub Keeps-on_metrics :
    (f : Metrics → Metrics) → ((m : Metrics) → counted (f m) ≡ counted m) → Keeps (on_metrics f)
unfolding modify
Keeps-on_metrics f h = record { at = λ w. h w.metrics }

pub ruleset keeps_rules = (
  Keeps-pure, Keeps-raise, Keeps-gets, Keeps-attempt, Keeps-perform, Keeps-if, Keeps-bind,
  Keeps-skip, Keeps-notify,
)
