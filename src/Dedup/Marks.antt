-- ===== src/Dedup/Marks.antt =====
-- The keys that the membership store of an `InMemoryStore` holds.
use Prim.Native.String.{String}
use text.Mathlib.Text.{◌==◌}
use text.Mathlib.TextEquality.{eq_iff}
use mathlib.Core.Path.{subst}
use agora_etl.Prelude.{
  ℕ, Bool, true, false, inl, inr, Bool-cases, Option, none, some, if◌then◌else◌, ◌≡◌, refl, ◌∙◌,
}
use agora_etl.Memory.{StoredValue, Values, find, put, get_found, get, set, delete}
use agora_etl.Memory.Finds.{find-put_same, find-put_other, find-pop_at, find-pop_other}
use agora_etl.Membership.{MembershipKeyStore, full_key, contains, add, delete_key, expires_at, told}
use agora_etl.Membership.Keys.{full_key-eq}

-- A key that was seen, without an end.
abbrev pub seen_entry : StoredValue
seen_entry = record { value = 1; expires_at = none }

abbrev pub seen_if : Bool → Option StoredValue
seen_if true = some seen_entry
seen_if false = none

-- The membership store that an `InMemoryStore` makes for itself.
abbrev pub members : String → MembershipKeyStore
members namespace = record { namespace = namespace; default_ttl_s = none }

module _ (namespace : String) where
  -- The keys of the namespace in the backend.
  abbrev pub Marks : Values → (String → Bool) → Type 0
  Marks vs p = (j : String) → find (full_key (members namespace) j) vs ≡ seen_if (p j)

  pub contains-Marks :
      (now : ℕ) (k : String) (vs : Values) (p : String → Bool)
      → Marks vs p
      → contains (members namespace) now k vs ≡ (p k, vs)
  unfolding contains get
  contains-Marks now k vs p h = rw (h k) (by_mark (p k))
    where
      by_mark :
          (b : Bool)
          → told (get_found now (full_key (members namespace) k) (seen_if b) vs) ≡ (b, vs)
      by_mark true = refl
      by_mark false = refl

  pub add-Marks :
      (now : ℕ) (k : String) (vs : Values) (p : String → Bool)
      → Marks vs p
      → Marks (add (members namespace) now k none vs) (λ j. if k == j then true else p j)
  unfolding add set expires_at
  add-Marks now k vs p h j = elim (Bool-cases (k == j)) [
    | inl same ↦ simp (same) (
        subst
          (λ (s : String).
            find (full_key (members namespace) s)
              (put (full_key (members namespace) k) seen_entry vs)
            ≡ some seen_entry)
          ((eq_iff k j).0 same) (find-put_same (full_key (members namespace) k) seen_entry vs))
    | inr other ↦ simp (other) (
        find-put_other (full_key (members namespace) k) (full_key (members namespace) j)
          (full_key-eq (members namespace) k j ∙ other) seen_entry vs
        ∙ h j)
  ]

  pub delete_key-Marks :
      (k : String) (vs : Values) (p : String → Bool)
      → Marks vs p
      → Marks (delete_key (members namespace) k vs) (λ j. if k == j then false else p j)
  unfolding delete_key delete
  delete_key-Marks k vs p h j = elim (Bool-cases (k == j)) [
    | inl same ↦ simp (same) (
        find-pop_at (full_key (members namespace) k) (full_key (members namespace) j) vs
          (full_key-eq (members namespace) k j ∙ same))
    | inr other ↦ simp (other) (
        find-pop_other (full_key (members namespace) k) (full_key (members namespace) j)
          (full_key-eq (members namespace) k j ∙ other) vs
        ∙ h j)
  ]
