-- ===== src/Delivery/Exec.antt =====
-- Coroutines that mutate the run's state and may raise. What was done before a raise stays done, so
-- the state comes back beside the exception too. An `await` runs to its end: what other tasks do
-- across it does not touch this state in the lanes without a pending-write owner.
pub mod Returns
use agora_etl.Prelude.{Bool, true, false, Option, none, some, ◌∷◌, ◌≡◌, refl, if◌then◌else◌}
use agora_etl.Failures.{Exc, Result, ok, err}
use agora_etl.Delivery.World.{World, Event, History}

abbrev pub Exec : Type 0 → Type 0
Exec A = World → Result A × World

module _ {A : Type 0} where
  unfoldable pub pure : A → Exec A
  pure a w = (ok a, w)

  unfoldable pub raise : Exc → Exec A
  raise e w = (err e, w)

  -- `try: m` with the exception as a value, for the `except` clauses that follow.
  unfoldable pub attempt : Exec A → Exec (Result A)
  attempt m w = let (r, w') = m w in (ok r, w')

unfoldable pub modify : (World → World) → Exec (Unit {0})
modify f w = (ok tt, f w)

unfoldable pub gets : {A : Type 0} → (World → A) → Exec A
gets f w = (ok (f w), w)

unfoldable pub skip : Exec (Unit {0})
skip w = (ok tt, w)

-- A call of a collaborator: its answer goes into the log.
unfoldable pub perform : {A : Type 0} → (History → Result A) → (Result A → Event) → Exec A
perform f event w = let r = f w.log in (r, record w { log = event r ∷ w.log })

-- A collaborator that returns nothing: `none`, or the exception that it raised.
abbrev pub completed : Option Exc → Result (Unit {0})
completed none = ok tt
completed (some e) = err e

unfoldable pub notify : (History → Option Exc) → (Option Exc → Event) → Exec (Unit {0})
notify f event w = let r = f w.log in (completed r, record w { log = event r ∷ w.log })

module _ {A B : Type 0} where
  abbrev pub resume : Result A → (A → Exec B) → Exec B
  resume (ok a) f w = f a w
  resume (err e) f w = (err e, w)

  infixl 5 ◌>>=◌ ◌>>◌
  -- Opening this opens the other primitive actions too.
  unfoldable pub ◌>>=◌ : Exec A → (A → Exec B) → Exec B
  unfolding pure raise attempt modify gets skip perform notify
  ◌>>=◌ m f w = let (r, w') = m w in resume r f w'

  abbrev pub ◌>>◌ : Exec A → Exec B → Exec B
  m >> n = m >>= λ _. n

module _ {A B C : Type 0} where
  resume_then :
      (r : Result A) (f k : A → Exec B) (n : B → Exec C) (m : A → Exec C) (w : World)
      → ((a : A) (w' : World) → m a w' ≡ (k a >>= n) w')
      → resume r m w ≡ (resume r k >>= n) w
  unfolding ◌>>=◌
  resume_then (ok a) f k n m w h = h a w
  resume_then (err e) f k n m w h = refl

  -- A bind whose continuation splits, splits.
  pub bind_then :
      (r : Exec A) (k : A → Exec B) (n : B → Exec C) (m : A → Exec C) (w : World)
      → ((a : A) (w' : World) → m a w' ≡ (k a >>= n) w')
      → (r >>= m) w ≡ (r >>= k >>= n) w
  unfolding ◌>>=◌
  bind_then r k n m w h = let (x, w') = r w in resume_then x k k n m w' h

module _ {B C : Type 0} where
  -- So does a test whose first branch raises.
  pub if_then :
      (b : Bool) (e : Exc) (m : Exec C) (k : Exec B) (n : B → Exec C)
      → ((w : World) → m w ≡ (k >>= n) w)
      → (w : World) → (if b then raise e else m) w ≡ ((if b then raise e else k) >>= n) w
  unfolding ◌>>=◌
  if_then true e m k n h w = refl
  if_then false e m k n h w = h w

module _ {A B : Type 0} where
  resume_same :
      (r : Result A) (f k : A → Exec B) (w : World)
      → ((a : A) (w' : World) → f a w' ≡ k a w')
      → resume r f w ≡ resume r k w
  resume_same (ok a) f k w h = h a w
  resume_same (err e) f k w h = refl

  -- Binds of continuations that do the same do the same.
  pub bind_same :
      (m : Exec A) (f k : A → Exec B) (w : World)
      → ((a : A) (w' : World) → f a w' ≡ k a w')
      → (m >>= f) w ≡ (m >>= k) w
  unfolding ◌>>=◌
  bind_same m f k w h = let (r, w') = m w in resume_same r f k w' h
