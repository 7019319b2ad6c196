-- ===== src/Dedup.antt =====
-- `DedupMiddleware` of middlewares/dedup/middleware.py. The time of a call is an argument, since a
-- store may forget keys with time.
mod InMemory
mod Order
mod Marks
mod Trim
mod Recent
mod Apart
mod Exact
mod Stores
mod Tests
use Prim.Native.String.{String}
use text.Mathlib.Text.{◌==◌}
use agora_etl.Prelude.{
  ℕ, Bool, true, false, not, ◌||◌, ◌&&◌, Option, none, some, List, [], ◌∷◌, ◌++◌, length, leb,
  if◌then◌else◌,
}
use agora_etl.Failures.{Exc, Result, ok, err}
use agora_etl.Memory.Finds.{mem}

-- stores/base.py
pub record DedupStore (S : Type 0) : Type 0 where
  pub exists : ℕ → String → S → Result Bool × S
  pub add : ℕ → String → S → Result (Unit {0}) × S

pub data StoreFailurePolicy : Type 0 where
  fail_open fail_closed : StoreFailurePolicy

abbrev pub Strategy : Type 0
Strategy = String → String → Bool

pub record Config : Type 0 where
  pub strategy : Option Strategy
  pub max_fuzzy_keys : ℕ
  pub store_failure_policy : StoreFailurePolicy

-- `pending_keys` is a set; `seen_keys` is used with a strategy only.
pub record DedupMiddleware (S : Type 0) : Type 0 where
  pub store : S
  pub seen_keys : List String
  pub pending_keys : List String
  pub pending_fuzzy_keys : List String

-- What `process` does with a record: it returns None, returns the record, with or without a success
-- hook for its key, or raises.
pub data Outcome : Type 0 where
  skipped : Outcome
  passed : Outcome
  unmarked : Outcome
  raised_out : Exc → Outcome

-- `remove` of a list: the first one that is equal.
abbrev pub remove : String → List String → List String
remove k [] = []
remove k (j ∷ js) = let rest = remove k js in if j == k then js else j ∷ rest

-- `add` and `discard` of a set.
abbrev pub add_key : String → List String → List String
add_key k ks = if mem k ks then ks else k ∷ ks

abbrev pub handle_store_failure : StoreFailurePolicy → Exc → Outcome
handle_store_failure fail_open e = unmarked
handle_store_failure fail_closed e = raised_out e

abbrev pub remember_seen : Option Strategy → String → List String → List String
remember_seen none k seen = seen
remember_seen (some dup) k seen = if mem k seen then seen else seen ++ k ∷ []

abbrev pub any_duplicate : Strategy → String → List String → Bool
any_duplicate dup k [] = false
any_duplicate dup k (j ∷ js) = dup k j || any_duplicate dup k js

module _ {S : Type 0} (st : DedupStore S) (c : Config) where
  unfoldable pub register_commit_marker : String → DedupMiddleware S → DedupMiddleware S
  register_commit_marker k d = record d { pending_keys = add_key k d.pending_keys }

  -- The `finally` of `_commit`, which is all of `_discard`.
  unfoldable pub discard : String → DedupMiddleware S → DedupMiddleware S
  discard k d = record d {
    pending_keys = remove k d.pending_keys;
    pending_fuzzy_keys = remove k d.pending_fuzzy_keys;
  }

  abbrev pub after_add :
      String → Result (Unit {0}) × S → DedupMiddleware S → Option Exc × DedupMiddleware S
  after_add k (ok u, s) d =
      (none, discard k (record d { store = s; seen_keys = remember_seen c.strategy k d.seen_keys }))
  after_add k (err e, s) d = (some e, discard k (record d { store = s }))

  -- `_commit`, with the exception that it raises.
  unfoldable pub commit : ℕ → String → DedupMiddleware S → Option Exc × DedupMiddleware S
  commit now k d = after_add k (st.add now k d.store) d

  abbrev pub after_exists :
      String → Result Bool × S → DedupMiddleware S → Outcome × DedupMiddleware S
  after_exists k (ok true, s) d = (skipped, record d { store = s })
  after_exists k (ok false, s) d = (passed, register_commit_marker k (record d { store = s }))
  after_exists k (err e, s) d =
      (handle_store_failure c.store_failure_policy e, record d { store = s })

  -- The exact path, which is also what is left of the fuzzy one when it holds too many keys.
  unfoldable pub process_exact : ℕ → String → DedupMiddleware S → Outcome × DedupMiddleware S
  process_exact now k d =
      if mem k d.pending_keys then (skipped, d) else after_exists k (st.exists now k d.store) d

  unfoldable pub process_fuzzy : Strategy → String → DedupMiddleware S → Outcome × DedupMiddleware S
  process_fuzzy dup k d =
      if any_duplicate dup k (d.seen_keys ++ d.pending_fuzzy_keys) then (skipped, d) else (
        passed,
        register_commit_marker k (record d { pending_fuzzy_keys = d.pending_fuzzy_keys ++ k ∷ [] }),
      )

  abbrev pub process_by :
      Option Strategy → ℕ → String → DedupMiddleware S → Outcome × DedupMiddleware S
  process_by none now k d = process_exact now k d
  process_by (some dup) now k d =
      if leb c.max_fuzzy_keys (length d.seen_keys)
      then process_exact now k d
      else process_fuzzy dup k d

  unfoldable pub process : ℕ → String → DedupMiddleware S → Outcome × DedupMiddleware S
  process now k d = process_by c.strategy now k d

  -- `on_stop`, without closing the store
  unfoldable pub on_stop : DedupMiddleware S → DedupMiddleware S
  on_stop d = record d { pending_keys = []; pending_fuzzy_keys = [] }
