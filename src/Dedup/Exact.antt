-- ===== src/Dedup/Exact.antt =====
-- Deduplication by equal keys: what a run delivers, over any store that remembers what it was given.
use Prim.Native.String.{String}
use agora_etl.Prelude.{
  ℕ, Bool, true, false, inl, inr, Bool-cases, Option, none, some, List, [], ◌∷◌, ◌++◌,
  if◌then◌else◌, ◌≡◌, refl, sym, ap, ◌∙◌,
}
use agora_etl.Failures.{Exc, Result, ok, err}
use agora_etl.Memory.Counts.{IsApart}
use agora_etl.Memory.Finds.{mem}
use agora_etl.Dedup.Apart.{mem-append, left-IsApart, moved-IsApart}
use agora_etl.Dedup.{
  DedupStore, StoreFailurePolicy, fail_open, fail_closed, Config, DedupMiddleware, Outcome, skipped,
  passed, unmarked, raised_out, remove, after_exists, after_add, register_commit_marker, discard,
  commit, process_exact, process, handle_store_failure,
}

-- An answer of `exists` is right, and an `add` that returns has stored its key.
abbrev pub Asked :
    {S : Type 0} → (S → List String → Type 0) → String → List String → Result Bool × S → Type 0
Asked Holds k ks (ok b, s) = (b ≡ mem k ks) × Holds s ks
Asked Holds k ks (err e, s) = Holds s ks

abbrev pub Added :
    {S : Type 0}
    → (S → List String → Type 0)
    → String
    → List String
    → Result (Unit {0}) × S
    → Type 0
Added Holds k ks (ok u, s) = Holds s (k ∷ ks)
Added Holds k ks (err e, s) = Holds s ks

-- A store that holds exactly the keys that were added.
pub record Remembers {S : Type 0} (st : DedupStore S) (Holds : S → List String → Type 0)
    : Type 0 where
  pub asks :
      (now : ℕ) (k : String) (s : S) (ks : List String)
      → Holds s ks
      → Asked Holds k ks (st.exists now k s)
  pub adds :
      (now : ℕ) (k : String) (s : S) (ks : List String)
      → Holds s ks
      → Added Holds k ks (st.add now k s)

-- The middleware, the keys of the records in flight (whose success hooks wait in the context), and
-- those of the records whose hook was run and did not raise.
pub record Run (S : Type 0) : Type 0 where
  pub dedup : DedupMiddleware S
  pub in_flight : List String
  pub delivered : List String

-- What happens to a key, with the time: a record arrives with it; the record in flight with it is
-- delivered, or is given up.
pub data Event : Type 0 where
  arrives commits discards : String → Event

abbrev pub arrived : {S : Type 0} → String → Outcome × DedupMiddleware S → Run S → Run S
arrived k (passed, d) r = record r { dedup = d; in_flight = k ∷ r.in_flight }
arrived k (skipped, d) r = record r { dedup = d }
arrived k (unmarked, d) r = record r { dedup = d }
arrived k (raised_out e, d) r = record r { dedup = d }

abbrev pub committed : {S : Type 0} → String → Option Exc × DedupMiddleware S → Run S → Run S
committed k (none, d) r = record {
  dedup = d;
  in_flight = remove k r.in_flight;
  delivered = k ∷ r.delivered;
}
committed k (some e, d) r = record r { dedup = d; in_flight = remove k r.in_flight }

abbrev pub new_run : {S : Type 0} → S → Run S
new_run s = record {
  dedup = record { store = s; seen_keys = []; pending_keys = []; pending_fuzzy_keys = [] };
  in_flight = [];
  delivered = [];
}

module _ {S : Type 0} (st : DedupStore S) (c : Config) where
  -- A hook is run or discarded only while it is registered.
  abbrev pub step : ℕ → Event → Run S → Run S
  step now (arrives k) r = arrived k (process st c now k r.dedup) r
  step now (commits k) r =
      if mem k r.in_flight then committed k (commit st c now k r.dedup) r else r
  step now (discards k) r =
      if mem k r.in_flight
      then record r { dedup = discard st c k r.dedup; in_flight = remove k r.in_flight }
      else r

  abbrev pub run : List (ℕ × Event) → Run S → Run S
  run [] r = r
  run ((now, e) ∷ es) r = run es (step now e r)

-- What `process` may say of a key.
abbrev pub Verdict : {S : Type 0} → String → Run S → Outcome → Type 0
Verdict k r passed = mem k (r.in_flight ++ r.delivered) ≡ false
Verdict k r skipped = mem k (r.in_flight ++ r.delivered) ≡ true
Verdict k r unmarked = Unit {0}
Verdict k r (raised_out e) = Unit {0}

-- No key is in flight or delivered twice, nor delivered while it is in flight; what is reserved is
-- in flight, and the store holds what was delivered.
pub record IsExact {S : Type 0} (Holds : S → List String → Type 0) (r : Run S) : Type 0 where
  pub once : IsApart (r.in_flight ++ r.delivered)
  pub reserved : r.dedup.pending_keys ≡ r.in_flight
  pub holds : Holds r.dedup.store r.delivered

module _ {S : Type 0} (st : DedupStore S) (c : Config) (exact_mode : c.strategy ≡ none)
    (Holds : S → List String → Type 0) (laws : Remembers st Holds) where
  by_exact :
      (now : ℕ) (k : String) (d : DedupMiddleware S)
      → process st c now k d ≡ process_exact st c now k d
  unfolding process
  by_exact now k d = rw (exact_mode) refl

  -- An arrival is judged rightly, and leaves the run exact.
  record Judged (k : String) (r : Run S) (a : Outcome × DedupMiddleware S) : Type 0 where
    verdict : Verdict k r a.0
    exact : IsExact Holds (arrived k a r)

  failed-Judged :
      (k : String) (p : StoreFailurePolicy) (e : Exc) (r : Run S) (s : S)
      → IsExact Holds r
      → Holds s r.delivered
      → Judged k r (handle_store_failure p e, record r.dedup { store = s })
  failed-Judged k fail_open e r s x h = record {
    verdict = tt;
    exact = record { once = x.once; reserved = x.reserved; holds = h };
  }
  failed-Judged k fail_closed e r s x h = record {
    verdict = tt;
    exact = record { once = x.once; reserved = x.reserved; holds = h };
  }

  after_exists-Judged :
      (k : String) (r : Run S) (a : Result Bool × S)
      → IsExact Holds r
      → mem k r.in_flight ≡ false
      → Asked Holds k r.delivered a
      → Judged k r (after_exists st c k a r.dedup)
  unfolding register_commit_marker
  after_exists-Judged k r (ok true, s) x away h = record {
    verdict = mem-append k r.in_flight r.delivered ∙ simp (away) (sym h.0);
    exact = record { once = x.once; reserved = x.reserved; holds = h.1 };
  }
  after_exists-Judged k r (ok false, s) x away h =
      let new : mem k (r.in_flight ++ r.delivered) ≡ false =
        mem-append k r.in_flight r.delivered ∙ simp (away) (sym h.0) in
      record {
        verdict = new;
        exact = record { once = (new, x.once); reserved = rw (x.reserved, away) refl; holds = h.1 };
      }
  after_exists-Judged k r (err e, s) x away h = failed-Judged k c.store_failure_policy e r s x h

  arrival-Judged :
      (now : ℕ) (k : String) (r : Run S) → IsExact Holds r → Judged k r (process st c now k r.dedup)
  unfolding process_exact
  arrival-Judged now k r x = rw (by_exact now k r.dedup) (elim (Bool-cases (mem k r.in_flight)) [
    | inl here ↦ simp (ap (mem k) x.reserved ∙ here) (record {
      verdict = mem-append k r.in_flight r.delivered ∙ simp (here) refl;
      exact = record { once = x.once; reserved = x.reserved; holds = x.holds };
    })
    | inr away ↦ simp (ap (mem k) x.reserved ∙ away) (
        after_exists-Judged k r (st.exists now k r.dedup.store) x away
          (laws.asks now k r.dedup.store r.delivered x.holds))
  ])

  after_add-IsExact :
      (k : String) (r : Run S) (a : Result (Unit {0}) × S)
      → mem k r.in_flight ≡ true
      → IsExact Holds r
      → Added Holds k r.delivered a
      → IsExact Holds (committed k (after_add st c k a r.dedup) r)
  unfolding discard
  after_add-IsExact k r (ok u, s) here x h = record {
    once = moved-IsApart k r.in_flight r.delivered here x.once;
    reserved = ap (remove k) x.reserved;
    holds = h;
  }
  after_add-IsExact k r (err e, s) here x h = record {
    once = left-IsApart k r.in_flight r.delivered x.once;
    reserved = ap (remove k) x.reserved;
    holds = h;
  }

  step-IsExact :
      (now : ℕ) (e : Event) (r : Run S) → IsExact Holds r → IsExact Holds (step st c now e r)
  unfolding commit discard
  step-IsExact now (arrives k) r x = (arrival-Judged now k r x).exact
  step-IsExact now (commits k) r x = elim (Bool-cases (mem k r.in_flight)) [
    | inl here ↦ simp (here) (
        after_add-IsExact k r (st.add now k r.dedup.store) here x
          (laws.adds now k r.dedup.store r.delivered x.holds))
    | inr away ↦ simp (away) x
  ]
  step-IsExact now (discards k) r x = elim (Bool-cases (mem k r.in_flight)) [
    | inl here ↦ simp (here) (record {
      once = left-IsApart k r.in_flight r.delivered x.once;
      reserved = ap (remove k) x.reserved;
      holds = x.holds;
    })
    | inr away ↦ simp (away) x
  ]

  reached-IsExact :
      (es : List (ℕ × Event)) (r : Run S) → IsExact Holds r → IsExact Holds (run st c es r)
  reached-IsExact [] r x = x
  reached-IsExact ((now, e) ∷ es) r x =
      reached-IsExact es (step st c now e r) (step-IsExact now e r x)

  -- Over a store that holds exactly the keys whose `add` returned, and without a strategy, whatever
  -- arrivals, deliveries and discards follow each other from an empty start, no key is ever in flight
  -- or marked as delivered twice. Of the next record, `process` says None if its key is in flight or
  -- was delivered and marked, and only then, unless `exists` raises.
  pub run-Verdict :
      (s : S)
      → Holds s []
      → (es : List (ℕ × Event)) (now : ℕ) (k : String)
      → let r = run st c es (new_run s) in
        IsApart (r.in_flight ++ r.delivered) × Verdict k r (process st c now k r.dedup).0
  run-Verdict s h es now k =
      let x = reached-IsExact es (new_run s) (record { once = tt; reserved = refl; holds = h }) in
      (x.once, (arrival-Judged now k (run st c es (new_run s)) x).verdict)
