-- ===== src/Pending/Invariant.antt =====
-- What holds in every state of a run, whatever the order of the steps.
use agora_etl.Prelude.{
  ℕ, ◌≤◌, ◌+◌, Bool, true, false, ◌||◌, List, [], ◌∷◌, ◌++◌, length, ◌≡◌, refl, sym, ap, ◌∙◌, arith,
}
use mathlib.Core.List.{append-nil, append_assoc}
use mathlib.Core.Path.{subst}
use agora_etl.Pending.{
  Place, top, waiting, flushing, ended, failed, Owner, Turn, leave, flush, again, wait, any,
  new_owner, before_wait, after_wait, take_turn, woken, written, OwnerStep, turn, notified,
  timed_out, wrote, Step, owner, raised_error, queues, closes, Run, no_step, step_and,
}

module _ {A : Type 0} where
  abbrev pub joined : List (List A) → List A
  joined [] = []
  joined (b ∷ bs) = b ++ joined bs

  abbrev pub in_flight : Place A → List A
  in_flight (flushing batch) = batch
  in_flight (failed e batch) = batch
  in_flight _ = []

  -- Every write that was queued, in the order in which it was, as far as the run has it.
  abbrev pub all_writes : Owner A → List A
  all_writes o = joined o.flushed ++ (in_flight o.place ++ o.pending_writes)

  abbrev pub EachAtMost : ℕ → List (List A) → Type 0
  EachAtMost n [] = Unit {0}
  EachAtMost n (b ∷ bs) = (length b ≤ n) × EachAtMost n bs

  -- A wait without a timeout is over once something is pending or the run stops.
  abbrev pub Heard : Place A → Bool → Bool → Type 0
  Heard (waiting false) due notify = due ≡ true → notify ≡ true
  Heard _ due notify = Unit {0}

  abbrev pub is_due : Owner A → Bool
  is_due o = any o.pending_writes || o.stop

  pub record IsKept (batch_size : ℕ) (o : Owner A) : Type 0 where
    pub kept : all_writes o ≡ o.queued
    pub fits : length o.pending_writes ≤ batch_size
    pub flight_fits : length (in_flight o.place) ≤ batch_size
    pub each_fits : EachAtMost batch_size o.flushed
    pub heard : Heard o.place (is_due o) o.notify

  new_owner-IsKept : (n : ℕ) → IsKept n new_owner
  new_owner-IsKept n = record {
    kept = refl;
    fits = omega arith;
    flight_fits = omega arith;
    each_fits = tt;
    heard = tt;
  }

  joined-append : (bs : List (List A)) (b : List A) → joined (bs ++ b ∷ []) ≡ joined bs ++ b
  joined-append [] b = append-nil b
  joined-append (c ∷ bs) b =
      ap (λ l. c ++ l) (joined-append bs b) ∙ sym (append_assoc c (joined bs) b)

  append-EachAtMost :
      (n : ℕ) (bs : List (List A)) (b : List A)
      → EachAtMost n bs
      → length b ≤ n
      → EachAtMost n (bs ++ b ∷ [])
  append-EachAtMost n [] b h k = (k, tt)
  append-EachAtMost n (c ∷ bs) b h k = (h.0, append-EachAtMost n bs b h.1 k)

  length_snoc : (xs : List A) (x : A) → length (xs ++ x ∷ []) ≡ length xs + 1
  length_snoc [] x = refl
  length_snoc (y ∷ xs) x = omega (arith, length_snoc xs x)

  -- What a wait that starts now may miss.
  abbrev pub HeardTurn : Turn → Owner A → Type 0
  HeardTurn (wait b) o = Heard (waiting b) (is_due o) o.notify
  HeardTurn _ o = Unit {0}

module _ {A : Type 0} (n : ℕ) where
  turn-IsKept :
      (o : Owner A) (t : Turn)
      → in_flight o.place ≡ []
      → joined o.flushed ++ o.pending_writes ≡ o.queued
      → HeardTurn t o
      → length o.pending_writes ≤ n
      → EachAtMost n o.flushed
      → IsKept n (take_turn t o)
  turn-IsKept o leave idle flat m fits each = record {
    kept = flat;
    fits = fits;
    flight_fits = omega arith;
    each_fits = each;
    heard = tt;
  }
  turn-IsKept o again idle flat m fits each = record {
    kept = flat;
    fits = fits;
    flight_fits = omega arith;
    each_fits = each;
    heard = tt;
  }
  turn-IsKept o (wait b) idle flat m fits each = record {
    kept = flat;
    fits = fits;
    flight_fits = omega arith;
    each_fits = each;
    heard = m;
  }
  turn-IsKept o flush idle flat m fits each = record {
    kept = ap (λ l. joined o.flushed ++ l) (append-nil o.pending_writes) ∙ flat;
    fits = omega arith;
    flight_fits = fits;
    each_fits = each;
    heard = tt;
  }

  flat_when :
      (o : Owner A)
      → in_flight o.place ≡ []
      → IsKept n o
      → joined o.flushed ++ o.pending_writes ≡ o.queued
  flat_when o idle k = ap (λ l. joined o.flushed ++ (l ++ o.pending_writes)) (sym idle) ∙ k.kept

  before_wait_heard : (o : Owner A) → HeardTurn (before_wait n o) o
  unfolding before_wait
  before_wait_heard o = ground arith

  after_wait_heard : (b : Bool) (o : Owner A) → HeardTurn (after_wait b o) o
  unfolding after_wait
  after_wait_heard b o = ground arith

  woken-IsKept :
      (o : Owner A) (b timed : Bool) → o.place ≡ waiting timed → IsKept n o → IsKept n (woken b o)
  woken-IsKept o b timed at k =
      let cleared = record o { notify = false } in
      let idle = ap in_flight at in
      turn-IsKept cleared (after_wait b cleared) idle (flat_when o idle k)
        (after_wait_heard b cleared) k.fits k.each_fits

  written-IsKept :
      (o : Owner A) (batch : List A)
      → o.place ≡ flushing batch
      → IsKept n o
      → IsKept n (written batch o)
  written-IsKept o batch at k = record {
    kept =
        ap (λ l. l ++ o.pending_writes) (joined-append o.flushed batch)
        ∙ append_assoc (joined o.flushed) batch o.pending_writes
        ∙ subst (λ (p : Place A). joined o.flushed ++ (in_flight p ++ o.pending_writes) ≡ o.queued)
            at k.kept;
    fits = k.fits;
    flight_fits = omega arith;
    each_fits =
        append-EachAtMost n o.flushed batch k.each_fits
          (subst (λ (p : Place A). length (in_flight p) ≤ n) at k.flight_fits);
    heard = tt;
  }

  pub owner-IsKept : {o o' : Owner A} → OwnerStep n o o' → IsKept n o → IsKept n o'
  owner-IsKept (turn o at) k =
      turn-IsKept o _ (ap in_flight at) (flat_when o (ap in_flight at) k) (before_wait_heard o)
        k.fits k.each_fits
  owner-IsKept (notified o b at heard) k = woken-IsKept o false b at k
  owner-IsKept (timed_out o at) k = woken-IsKept o true true at k
  owner-IsKept (wrote o batch at) k = written-IsKept o batch at k

  notified-Heard : (p : Place A) (due : Bool) → Heard p due true
  notified-Heard (waiting false) due = λ h. refl
  notified-Heard (waiting true) due = tt
  notified-Heard top due = tt
  notified-Heard (flushing b) due = tt
  notified-Heard ended due = tt
  notified-Heard (failed e b) due = tt

  Step-IsKept : {o o' : Owner A} → Step n o o' → IsKept n o → IsKept n o'
  Step-IsKept (owner s) k = owner-IsKept s k
  Step-IsKept (raised_error o batch e at) k = record {
    kept =
        subst (λ (p : Place A). joined o.flushed ++ (in_flight p ++ o.pending_writes) ≡ o.queued) at
          k.kept;
    fits = k.fits;
    flight_fits = subst (λ (p : Place A). length (in_flight p) ≤ n) at k.flight_fits;
    each_fits = k.each_fits;
    heard = tt;
  }
  Step-IsKept (queues o x going room) k = record {
    kept =
        ap (λ l. joined o.flushed ++ l)
          (sym (append_assoc (in_flight o.place) o.pending_writes (x ∷ [])))
        ∙ sym (append_assoc (joined o.flushed) (in_flight o.place ++ o.pending_writes) (x ∷ []))
        ∙ ap (λ l. l ++ x ∷ []) k.kept;
    fits = omega (arith, room, length_snoc o.pending_writes x);
    flight_fits = k.flight_fits;
    each_fits = k.each_fits;
    heard = notified-Heard o.place _;
  }
  Step-IsKept (closes o) k = record {
    kept = k.kept;
    fits = k.fits;
    flight_fits = k.flight_fits;
    each_fits = k.each_fits;
    heard = notified-Heard o.place _;
  }

  run-IsKept : {o o' : Owner A} → Run n o o' → IsKept n o → IsKept n o'
  run-IsKept no_step k = k
  run-IsKept (step_and s r) k = run-IsKept r (Step-IsKept s k)

  -- In every state that a run reaches, whatever the order of the steps of the owner and the producer:
  -- the flushed batches, the batch in flight and the pending writes, in this order, are the writes
  -- that were queued, in the order in which they were; none of these is larger than the batch size;
  -- and a wait without a timeout has been notified if something is pending or the run stops.
  pub reached-IsKept : {o : Owner A} → Run n new_owner o → IsKept n o
  reached-IsKept r = run-IsKept r (new_owner-IsKept n)
