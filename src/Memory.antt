-- ===== src/Memory.antt =====
-- `MemoryBackend` of state/backend.py: a store whose entries may expire. The time of a call is an
-- argument, and a value is opaque.
pub mod Finds
pub mod Counts
mod Agrees
mod Refines
mod Tests
use Prim.Native.String.{String}
use text.Mathlib.Text.{◌==◌, starts_with}
use agora_etl.Prelude.{
  ℕ, suc, Bool, true, false, Option, none, some, List, [], ◌∷◌, length, leb, if◌then◌else◌,
}

pub record StoredValue : Type 0 where
  pub value : ℕ
  pub expires_at : Option ℕ

-- `_values`; a key stands once.
abbrev pub Values : Type 0
Values = List (String × StoredValue)

abbrev pub find : String → Values → Option StoredValue
find k [] = none
find k ((l, e) ∷ vs) = let rest = find k vs in if l == k then some e else rest

abbrev pub put : String → StoredValue → Values → Values
put k e [] = (k, e) ∷ []
put k e ((l, d) ∷ vs) = let rest = put k e vs in if l == k then (l, e) ∷ vs else (l, d) ∷ rest

-- `_values.pop(key, None)`
abbrev pub pop : String → Values → Values
pop k [] = []
pop k ((l, e) ∷ vs) = let rest = pop k vs in if l == k then rest else (l, e) ∷ rest

abbrev pub pop_all : List String → Values → Values
pop_all [] vs = vs
pop_all (k ∷ ks) vs = pop_all ks (pop k vs)

abbrev pub is_past : ℕ → Option ℕ → Bool
is_past now none = false
is_past now (some t) = leb t now

abbrev pub expired : ℕ → StoredValue → Bool
expired now e = is_past now e.expires_at

abbrev pub get_found : ℕ → String → Option StoredValue → Values → Option StoredValue × Values
get_found now k none vs = (none, vs)
get_found now k (some e) vs = if expired now e then (none, pop k vs) else (some e, vs)

unfoldable pub get : ℕ → String → Values → Option StoredValue × Values
get now k vs = get_found now k (find k vs) vs

unfoldable pub set : String → StoredValue → Values → Values
set k e vs = put k e vs

abbrev pub set_absent : String → StoredValue → Option StoredValue × Values → Bool × Values
set_absent k e (some d, vs) = (false, vs)
set_absent k e (none, vs) = (true, put k e vs)

unfoldable pub set_if_absent : ℕ → String → StoredValue → Values → Bool × Values
set_if_absent now k e vs = set_absent k e (get now k vs)

unfoldable pub delete : String → Values → Values
delete k vs = pop k vs

abbrev pub expired_keys : ℕ → Values → List String
expired_keys now [] = []
expired_keys now ((k, e) ∷ vs) =
    let rest = expired_keys now vs in if expired now e then k ∷ rest else rest

abbrev pub live_count : ℕ → String → Values → ℕ
live_count now prefix [] = 0
live_count now prefix ((k, e) ∷ vs) =
    let rest = live_count now prefix vs in
    if expired now e then rest else (if starts_with k prefix then suc rest else rest)

unfoldable pub count_prefix : ℕ → String → Values → ℕ × Values
count_prefix now prefix vs = (live_count now prefix vs, pop_all (expired_keys now vs) vs)

abbrev pub keys_with : String → Values → List String
keys_with prefix [] = []
keys_with prefix ((k, e) ∷ vs) =
    let rest = keys_with prefix vs in if starts_with k prefix then k ∷ rest else rest

unfoldable pub delete_prefix : String → Values → ℕ × Values
delete_prefix prefix vs = (length (keys_with prefix vs), pop_all (keys_with prefix vs) vs)

-- The calls, each with its time.
pub data Call : Type 0 where
  gets : String → Call
  sets adds : String → StoredValue → Call
  deletes counts deletes_prefix : String → Call

-- What a call returns.
pub data Answer : Type 0 where
  found : Option StoredValue → Answer
  added : Bool → Answer
  counted removed : ℕ → Answer
  done : Answer

abbrev pub answer_get : Option StoredValue × Values → Answer × Values
answer_get (e, vs) = (found e, vs)

abbrev pub answer_add : Bool × Values → Answer × Values
answer_add (b, vs) = (added b, vs)

abbrev pub answer_count : ℕ × Values → Answer × Values
answer_count (n, vs) = (counted n, vs)

abbrev pub answer_removed : ℕ × Values → Answer × Values
answer_removed (n, vs) = (removed n, vs)

unfoldable pub step : ℕ → Call → Values → Answer × Values
step now (gets k) vs = answer_get (get now k vs)
step now (sets k e) vs = (done, set k e vs)
step now (adds k e) vs = answer_add (set_if_absent now k e vs)
step now (deletes k) vs = (done, delete k vs)
step now (counts prefix) vs = answer_count (count_prefix now prefix vs)
step now (deletes_prefix prefix) vs = answer_removed (delete_prefix prefix vs)
