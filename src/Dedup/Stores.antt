-- ===== src/Dedup/Stores.antt =====
-- An `InMemoryStore` without a maximal size holds exactly the keys that were added.
use Prim.Native.String.{String}
use agora_etl.Prelude.{ℕ, none, List, ◌∷◌, refl}
use agora_etl.Memory.Finds.{mem}
use agora_etl.Dedup.Marks.{members, Marks, contains-Marks, add-Marks}
use agora_etl.Dedup.InMemory.{InMemoryStore, answered, exists, add_seen, in_memory}
use agora_etl.Dedup.Exact.{Asked, Remembers}

module _ (namespace : String) where
  abbrev pub Holds : InMemoryStore → List String → Type 0
  Holds s ks = Marks namespace s.backend (λ j. mem j ks)

  asks-Holds :
      (now : ℕ) (k : String) (s : InMemoryStore) (ks : List String)
      → Holds s ks
      → Asked Holds k ks (answered (exists (members namespace) none now k s))
  unfolding exists
  asks-Holds now k s ks h =
      simp (contains-Marks namespace now k s.backend (λ j. mem j ks) h) (refl, h)

  adds-Holds :
      (now : ℕ) (k : String) (s : InMemoryStore) (ks : List String)
      → Holds s ks
      → Holds (add_seen (members namespace) none now k s) (k ∷ ks)
  unfolding add_seen
  adds-Holds now k s ks h = add-Marks namespace now k s.backend (λ j. mem j ks) h

  pub in_memory-Remembers : Remembers (in_memory (members namespace) none) Holds
  unfolding in_memory
  in_memory-Remembers = record { asks = asks-Holds; adds = adds-Holds }
