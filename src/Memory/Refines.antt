-- ===== src/Memory/Refines.antt =====
-- The backend against a map in which nothing is ever removed for its age.
use Prim.Native.String.{String}
use text.Mathlib.Text.{starts_with}
use agora_etl.Prelude.{
  ℕ, ◌+◌, ◌≤◌, true, false, not, length, Option, none, some, List, [], ◌∷◌, if◌then◌else◌, ◌≡◌,
  refl, sym, ap, ◌∙◌, arith,
}
use agora_etl.Memory.Agrees.{
  Map, update, Agrees, put-Agrees, pop-Agrees, purge-Agrees, prefix-Agrees, Got, get-Got,
}
use agora_etl.Memory.Counts.{
  IsApart, both, some_found, fresh, live_keys, length-live_keys, live_keys-IsApart, mem-live_keys,
  keys_with-IsApart,
}
use agora_etl.Memory.Finds.{mem, mem-keys_with}
use agora_etl.Memory.{
  StoredValue, Values, get, set_absent, set, set_if_absent, delete, count_prefix, keys_with,
  live_count, delete_prefix, Call, gets, sets, adds, deletes, counts, deletes_prefix, Answer, found,
  added, counted, removed, done, answer_get, answer_add, step,
}

abbrev pub map_step : ℕ → Call → Map → Map
map_step now (gets k) m = m
map_step now (sets k e) m = update k (some e) m
map_step now (adds k e) m = if some_found (fresh now (m k)) then m else update k (some e) m
map_step now (deletes k) m = update k none m
map_step now (counts prefix) m = m
map_step now (deletes_prefix prefix) m = λ j. if starts_with j prefix then none else m j

-- The count of the keys that are to be had under the prefix.
pub record CountOf (now : ℕ) (prefix : String) (m : Map) (a : Answer) : Type 0 where
  pub keys : List String
  pub apart : IsApart keys
  pub size : a ≡ counted (length keys)
  pub exact : (j : String) → mem j keys ≡ both (starts_with j prefix) (some_found (fresh now (m j)))

-- The count of some keys under the prefix, with all that are to be had among them.
pub record RemovalOf (now : ℕ) (prefix : String) (m : Map) (a : Answer) : Type 0 where
  pub keys : List String
  pub apart : IsApart keys
  pub size : a ≡ removed (length keys)
  pub under : (j : String) → starts_with j prefix ≡ false → mem j keys ≡ false
  pub all : (j : String) → starts_with j prefix ≡ true → mem j keys ≡ false → fresh now (m j) ≡ none

-- What a call may return.
abbrev pub Tells : ℕ → Call → Map → Answer → Type 0
Tells now (gets k) m a = a ≡ found (fresh now (m k))
Tells now (sets k e) m a = a ≡ done
Tells now (adds k e) m a = a ≡ added (not (some_found (fresh now (m k))))
Tells now (deletes k) m a = a ≡ done
Tells now (counts prefix) m a = CountOf now prefix m a
Tells now (deletes_prefix prefix) m a = RemovalOf now prefix m a

record StepAgrees (now : ℕ) (c : Call) (m : Map) (a : Answer × Values) : Type 0 where
  tells : Tells now c m a.0
  states : Agrees now a.1 (map_step now c m)

adds-StepAgrees :
    (now : ℕ) (k : String) (e : StoredValue) (r : Option StoredValue × Values) (m : Map)
    → Got now k r m
    → StepAgrees now (adds k e) m (answer_add (set_absent k e r))
adds-StepAgrees now k e (some d, vs) m g =
    let taken : some_found (fresh now (m k)) ≡ true = ap some_found (sym g.answer) in
    record { tells = simp (taken) refl; states = simp (taken) g.agrees }
adds-StepAgrees now k e (none, vs) m g =
    let free : some_found (fresh now (m k)) ≡ false = ap some_found (sym g.answer) in
    record { tells = simp (free) refl; states = simp (free) (put-Agrees now k e vs m g.agrees) }

gets-StepAgrees :
    (now : ℕ) (k : String) (r : Option StoredValue × Values) (m : Map)
    → Got now k r m
    → StepAgrees now (gets k) m (answer_get r)
gets-StepAgrees now k (o, vs) m g = record { tells = ap found g.answer; states = g.agrees }

count-CountOf :
    (now : ℕ) (prefix : String) (vs : Values) (m : Map)
    → Agrees now vs m
    → CountOf now prefix m (counted (live_count now prefix vs))
count-CountOf now prefix vs m h = record {
  keys = live_keys now prefix vs;
  apart = live_keys-IsApart now prefix vs h.distinct;
  size = ap counted (sym (length-live_keys now prefix vs));
  exact = λ j.
      mem-live_keys now prefix j vs h.distinct
      ∙ ap (λ (o : Option StoredValue). both (starts_with j prefix) (some_found o))
          (h.same now j (omega arith));
}

removal-RemovalOf :
    (now : ℕ) (prefix : String) (vs : Values) (m : Map)
    → Agrees now vs m
    → RemovalOf now prefix m (removed (length (keys_with prefix vs)))
removal-RemovalOf now prefix vs m h = record {
  keys = keys_with prefix vs;
  apart = keys_with-IsApart prefix vs h.distinct;
  size = refl;
  under = λ j. (mem-keys_with prefix j vs).0;
  all = λ j at missing.
      sym (h.same now j (omega arith)) ∙ ap (fresh now) ((mem-keys_with prefix j vs).1 at missing);
}

step-StepAgrees :
    (now : ℕ) (c : Call) (vs : Values) (m : Map)
    → Agrees now vs m
    → StepAgrees now c m (step now c vs)
unfolding step set set_if_absent delete count_prefix delete_prefix
step-StepAgrees now (gets k) vs m h = gets-StepAgrees now k (get now k vs) m (get-Got now k vs m h)
step-StepAgrees now (sets k e) vs m h = record { tells = refl; states = put-Agrees now k e vs m h }
step-StepAgrees now (adds k e) vs m h =
    adds-StepAgrees now k e (get now k vs) m (get-Got now k vs m h)
step-StepAgrees now (deletes k) vs m h = record { tells = refl; states = pop-Agrees now k vs m h }
step-StepAgrees now (counts prefix) vs m h = record {
  tells = count-CountOf now prefix vs m h;
  states = purge-Agrees now vs m h;
}
step-StepAgrees now (deletes_prefix prefix) vs m h = record {
  tells = removal-RemovalOf now prefix vs m h;
  states = prefix-Agrees now prefix vs m h;
}

later-Agrees :
    (now later : ℕ) (vs : Values) (m : Map) → now ≤ later → Agrees now vs m → Agrees later vs m
later-Agrees now later vs m le h = record {
  distinct = h.distinct;
  same = λ n j le2. h.same n j (omega (arith, le, le2));
}

-- The calls with the time that passes before each.
abbrev pub Calls : Type 0
Calls = List (ℕ × Call)

abbrev pub answers_of : ℕ → Calls → Values → List Answer
answers_of now [] vs = []
answers_of now ((wait, c) ∷ cs) vs =
    (step (now + wait) c vs).0 ∷ answers_of (now + wait) cs (step (now + wait) c vs).1

-- The map goes through the calls, and each answer is one it allows.
pub data Follows : ℕ → Calls → Map → List Answer → Type 0 where
  ended : {now : ℕ} {m : Map} → Follows now [] m []
  called :
      {now wait : ℕ} {c : Call} {cs : Calls} {m : Map} {a : Answer} {rest : List Answer}
      → Tells (now + wait) c m a
      → Follows (now + wait) cs (map_step (now + wait) c m) rest
      → Follows now ((wait, c) ∷ cs) m (a ∷ rest)

agrees-Follows :
    (now : ℕ) (cs : Calls) (vs : Values) (m : Map)
    → Agrees now vs m
    → Follows now cs m (answers_of now cs vs)
agrees-Follows now [] vs m h = ended
agrees-Follows now ((wait, c) ∷ cs) vs m h =
    let s =
      step-StepAgrees (now + wait) c vs m (later-Agrees now (now + wait) vs m (omega arith) h) in
    called s.tells (
      agrees-Follows (now + wait) cs (step (now + wait) c vs).1 (map_step (now + wait) c m)
        s.states)

-- From an empty store, whatever calls of `get`, `set`, `set_if_absent`, `delete`, `count_prefix`
-- and `delete_prefix` follow each other, with any time passing in between, the answers are those of
-- a map that keeps everything: `get` answers the map's entry unless that has expired,
-- `set_if_absent` says whether there was no such entry, `count_prefix` counts the keys under the
-- prefix that have one, and `delete_prefix` counts keys under the prefix, those that have one
-- among them.
pub answers_of-Follows :
    (start : ℕ) (cs : Calls) → Follows start cs (λ j. none) (answers_of start cs [])
answers_of-Follows start cs =
    agrees-Follows start cs [] (λ j. none) (record { distinct = tt; same = λ n j le. refl })
