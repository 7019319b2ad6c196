-- ===== src/Dedup/Trim.antt =====
-- What is left of an `InMemoryStore` that has at most one key too many.
use Prim.Native.String.{String}
use text.Mathlib.Text.{◌==◌}
use text.Mathlib.TextEquality.{eq_iff}
use mathlib.Core.Path.{subst}
use agora_etl.Prelude.{
  ℕ, zero, suc, ◌≤◌, ◌<◌, Bool, true, false, inl, inr, Bool-cases, List, [], ◌∷◌, length, take, ltb,
  if◌then◌else◌, ◌≡◌, refl, sym, ap, ◌∙◌, arith,
}
use agora_etl.Memory.{Values}
use agora_etl.Memory.Counts.{IsApart}
use agora_etl.Memory.Finds.{mem}
use agora_etl.Membership.{MembershipKeyStore}
use agora_etl.Dedup.Order.{take_absent, take_all}
use agora_etl.Dedup.Marks.{seen_if, members, Marks, delete_key-Marks}
use agora_etl.Dedup.InMemory.{InMemoryStore, evict, trim, kept}

evict-take :
    (m : MembershipKeyStore) (n : ℕ) (l : List String) (vs : Values)
    → length l ≡ suc n
    → (evict m l vs).0 ≡ take n l
unfolding evict
evict-take m n [] vs h = absurd (omega (arith, h))
evict-take m zero (k ∷ []) vs h = refl
evict-take m (suc n) (k ∷ []) vs h = absurd (omega (arith, h))
evict-take m zero (k ∷ j ∷ ks) vs h = absurd (omega (arith, h))
evict-take m (suc n) (k ∷ j ∷ ks) vs h =
    ap (λ (r : List String). k ∷ r) (evict-take m n (j ∷ ks) vs (omega (arith, h)))

-- What is left of `p` when the keys of `l` that are not in `kept` are taken out.
abbrev left_of : List String → List String → Bool → String → Bool
left_of l kept b j = if mem j l then (if mem j kept then b else false) else b

left_of-cons :
    (k j : String) (l kept : List String) (b : Bool)
    → mem k l ≡ false
    → left_of l kept b j ≡ left_of (k ∷ l) (k ∷ kept) b j
left_of-cons k j l kept b h = elim (Bool-cases (k == j)) [
  | inl same ↦
      let out : mem j l ≡ false = subst (λ (s : String). mem s l ≡ false) ((eq_iff k j).0 same) h in
      simp (same, out) refl
  | inr other ↦ simp (other) refl
]

left_of-take :
    (n : ℕ) (j : String) (l : List String) → left_of l (take n l) (mem j l) j ≡ mem j (take n l)
left_of-take n j l = elim (Bool-cases (mem j l)) [
  | inl here ↦ elim (Bool-cases (mem j (take n l))) [
    | inl kept ↦ simp (here, kept) refl
    | inr dropped ↦ simp (here, dropped) refl
  ]
  | inr away ↦ simp (away) (sym (take_absent n j l away))
]

module _ (namespace : String) where
  evict-Marks :
      (l : List String) (vs : Values) (p : String → Bool)
      → IsApart l
      → Marks namespace vs p
      → Marks namespace
          (evict (members namespace) l vs).1
          (λ j. left_of l (evict (members namespace) l vs).0 (p j) j)
  unfolding evict
  evict-Marks [] vs p a h = h
  evict-Marks (k ∷ []) vs p a h =
      λ j. delete_key-Marks namespace k vs p h j ∙ ap seen_if (ground arith)
  evict-Marks (k ∷ i ∷ ks) vs p a h = λ j.
      evict-Marks (i ∷ ks) vs p a.1 h j
      ∙ ap seen_if (left_of-cons k j (i ∷ ks) (evict (members namespace) (i ∷ ks) vs).0 (p j) a.0)

  -- The store holds the keys of `l`, which has at most one key too many.
  pub record Kept (n : ℕ) (l : List String) (s : InMemoryStore) : Type 0 where
    pub lru : s.lru ≡ take n l
    pub marks : Marks namespace s.backend (λ j. mem j (take n l))

  evict-Kept :
      (n : ℕ) (l : List String) (vs : Values)
      → IsApart l
      → length l ≡ suc n
      → Marks namespace vs (λ j. mem j l)
      → Kept n l (kept (evict (members namespace) l vs))
  evict-Kept n l vs a len h =
      let at = evict-take (members namespace) n l vs len in
      record {
        lru = at;
        marks = λ j.
            evict-Marks l vs (λ i. mem i l) a h j
            ∙ ap (λ (r : List String). seen_if (left_of l r (mem j l) j)) at
            ∙ ap seen_if (left_of-take n j l);
      }

  pub trim-Kept :
      (n : ℕ) (l : List String) (vs : Values)
      → 0 < n
      → IsApart l
      → length l ≤ suc n
      → Marks namespace vs (λ j. mem j l)
      → Kept n l (trim (members namespace) n l vs)
  unfolding trim
  trim-Kept n l vs pos a len h = elim (Bool-cases (ltb n (length l))) [
    | inl over ↦
        let full : length l ≡ suc n = ground (arith, over, len) in
        simp (over, ltb_pos n pos) (evict-Kept n l vs a full h)
    | inr fits ↦
        let all = take_all n l (ground (arith, fits)) in
        simp (fits, ltb_pos n pos)
          (record {
            lru = sym all;
            marks = λ j. h j ∙ ap (λ (r : List String). seen_if (mem j r)) (sym all);
          })
  ]
    where
      ltb_pos : (m : ℕ) → 0 < m → ltb 0 m ≡ true
      ltb_pos m h = ground (arith, h)
