-- ===== src/Dedup/InMemory.antt =====
-- `InMemoryStore` of middlewares/dedup/stores/memory.py, on the membership store of stores/backend.py.
-- The order of `_lru` is kept with the key that was used last at the front.
use Prim.Native.String.{String}
use agora_etl.Prelude.{
  ℕ, Bool, true, false, ◌&&◌, Option, none, some, List, [], ◌∷◌, length, ltb, if◌then◌else◌,
}
use agora_etl.Failures.{Result, ok}
use agora_etl.Memory.{Values}
use agora_etl.Memory.Finds.{mem}
use agora_etl.Membership.{MembershipKeyStore, contains, add, mark_if_new, delete_key, count}
use agora_etl.Dedup.{DedupStore, remove}

pub record InMemoryStore : Type 0 where
  pub lru : List String
  pub backend : Values

abbrev pub found_in_lru : String → List String → Bool × Values → Bool × InMemoryStore
found_in_lru k lru (true, vs) = (true, record { lru = k ∷ remove k lru; backend = vs })
found_in_lru k lru (false, vs) = (false, record { lru = remove k lru; backend = vs })

abbrev pub kept : List String × Values → InMemoryStore
kept (lru, vs) = record { lru = lru; backend = vs }

abbrev pub with_values : InMemoryStore → Bool × Values → Bool × InMemoryStore
with_values s (b, vs) = (b, record s { backend = vs })

abbrev pub answered {ℓ} : {A : Type ℓ} → A × InMemoryStore → Result A × InMemoryStore
answered (a, s) = (ok a, s)

module _ (m : MembershipKeyStore) where
  unfoldable pub exists_in_lru : ℕ → String → InMemoryStore → Bool × InMemoryStore
  exists_in_lru now k s =
      if mem k s.lru then found_in_lru k s.lru (contains m now k s.backend) else (false, s)

  -- `popitem(last=False)`, and the deletion of the key that it popped
  unfoldable pub evict : List String → Values → List String × Values
  evict [] vs = ([], vs)
  evict (k ∷ []) vs = ([], delete_key m k vs)
  evict (k ∷ j ∷ ks) vs = let (rest, vs') = evict (j ∷ ks) vs in (k ∷ rest, vs')

  unfoldable pub trim : ℕ → List String → Values → InMemoryStore
  trim max_size lru vs =
      if ltb 0 max_size && ltb max_size (length lru)
      then kept (evict lru vs)
      else record { lru = lru; backend = vs }

  unfoldable pub remember_with_lru : ℕ → ℕ → String → Option ℕ → InMemoryStore → InMemoryStore
  remember_with_lru max_size now k ttl_s s =
      trim max_size (k ∷ remove k s.lru) (add m now k ttl_s s.backend)

  unfoldable pub exists : Option ℕ → ℕ → String → InMemoryStore → Bool × InMemoryStore
  exists none now k s = with_values s (contains m now k s.backend)
  exists (some max_size) now k s = exists_in_lru now k s

  -- `_default_ttl_seconds` is None.
  unfoldable pub add_seen : Option ℕ → ℕ → String → InMemoryStore → InMemoryStore
  add_seen none now k s = record s { backend = add m now k none s.backend }
  add_seen (some max_size) now k s = remember_with_lru max_size now k none s

  abbrev pub mark_absent : ℕ → ℕ → String → Option ℕ → Bool × InMemoryStore → Bool × InMemoryStore
  mark_absent max_size now k ttl_seconds (true, s) = (false, s)
  mark_absent max_size now k ttl_seconds (false, s) =
      (true, remember_with_lru max_size now k ttl_seconds s)

  -- Without a maximal size, `ttl_seconds` is not passed on.
  unfoldable pub mark_seen : Option ℕ → ℕ → String → Option ℕ → InMemoryStore → Bool × InMemoryStore
  mark_seen none now k ttl_seconds s = with_values s (mark_if_new m now k none s.backend)
  mark_seen (some max_size) now k ttl_seconds s =
      mark_absent max_size now k ttl_seconds (exists_in_lru now k s)

  -- The oldest key is looked at first.
  unfoldable pub purge_expired : ℕ → List String → Values → List String × Values
  purge_expired now [] vs = ([], vs)
  purge_expired now (k ∷ ks) vs =
      let (rest, vs') = purge_expired now ks vs in
      let (b, vs'') = contains m now k vs' in (if b then k ∷ rest else rest, vs'')

  unfoldable pub size : Option ℕ → ℕ → InMemoryStore → ℕ × InMemoryStore
  size none now s = let (n, vs) = count m now s.backend in (n, record s { backend = vs })
  size (some max_size) now s =
      let (ks, vs) = purge_expired now s.lru s.backend in
      (length ks, record { lru = ks; backend = vs })

  -- The store as the middleware sees it.
  unfoldable pub in_memory : Option ℕ → DedupStore InMemoryStore
  in_memory max_size = record {
    exists = λ now k s. answered (exists max_size now k s);
    add = λ now k s. (ok tt, add_seen max_size now k s);
  }
