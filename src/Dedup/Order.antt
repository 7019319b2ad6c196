-- ===== src/Dedup/Order.antt =====
-- Keys in the order of their last use.
use Prim.Native.String.{String}
use text.Mathlib.Text.{◌==◌}
use text.Mathlib.TextEquality.{eq_iff}
use text.Mathlib.TextPositions.{eq_refl}
use agora_etl.Prelude.{
  ℕ, zero, suc, ◌+◌, ◌≤◌, ◌<◌, Bool, true, false, inl, inr, Bool-cases, List, [], ◌∷◌, length, take,
  if◌then◌else◌, ◌≡◌, refl, sym, ap, ◌∙◌, arith,
}
use agora_etl.Memory.Counts.{IsApart}
use agora_etl.Memory.Finds.{mem}
use agora_etl.Dedup.{remove}

pub length-remove : (k : String) (l : List String) → length (remove k l) ≤ length l
length-remove k [] = omega arith
length-remove k (j ∷ l) = ground (arith, length-remove k l)

pub length-remove_present :
    (k : String) (l : List String) → mem k l ≡ true → length (remove k l) + 1 ≡ length l
length-remove_present k [] h = ground arith
length-remove_present k (j ∷ l) h = elim (Bool-cases (j == k)) [
  | inl same ↦ simp (same) (omega arith)
  | inr other ↦ simp (other) (omega (arith, length-remove_present k l (if_else (j == k) other h)))
]
  where
    if_else : (b : Bool) → b ≡ false → (if b then true else mem k l) ≡ true → mem k l ≡ true
    if_else b e h = ground (arith, e, h)

remove_absent : (k j : String) (l : List String) → mem j l ≡ false → mem j (remove k l) ≡ false
remove_absent k j [] h = refl
remove_absent k j (i ∷ l) h = ground (arith, h, remove_absent k j l)

pub mem-remove :
    (k j : String) (l : List String)
    → IsApart l
    → mem j (remove k l) ≡ (if k == j then false else mem j l)
mem-remove k j [] h = ground arith
mem-remove k j (i ∷ l) h = ground (
  arith,
  mem-remove k j l,
  eq_iff i k,
  eq_iff k j,
  eq_iff i j,
  h.0,
  h.1,
  ap (λ (s : String). mem s l),
)

pub remove-IsApart : (k : String) (l : List String) → IsApart l → IsApart (remove k l)
remove-IsApart k [] h = h
remove-IsApart k (j ∷ l) h = elim (Bool-cases (j == k)) [
  | inl same ↦ simp (same) h.1
  | inr other ↦ simp (other) (remove_absent k j l h.0, remove-IsApart k l h.1)
]

pub take-remove-take :
    (n : ℕ) (k : String) (h : List String)
    → take n (remove k (take (suc n) h)) ≡ take n (remove k h)
take-remove-take n k [] = refl
take-remove-take zero k (j ∷ h) = refl
take-remove-take (suc n) k (j ∷ h) = elim (Bool-cases (j == k)) [
  | inl same ↦ simp (same) (take_twice (suc n) h)
  | inr other ↦ simp (other) (ap (λ (l : List String). j ∷ l) (take-remove-take n k h))
]
  where
    take_twice : (m : ℕ) (l : List String) → take m (take m l) ≡ take m l
    take_twice zero l = refl
    take_twice (suc m) [] = refl
    take_twice (suc m) (x ∷ l) = ap (λ (r : List String). x ∷ r) (take_twice m l)

pub take_absent :
    (n : ℕ) (j : String) (l : List String) → mem j l ≡ false → mem j (take n l) ≡ false
take_absent zero j l h = refl
take_absent (suc n) j [] h = refl
take_absent (suc n) j (i ∷ l) h = ground (arith, h, take_absent n j l)

pub take-IsApart : (n : ℕ) (l : List String) → IsApart l → IsApart (take n l)
take-IsApart zero l h = tt
take-IsApart (suc n) [] h = tt
take-IsApart (suc n) (i ∷ l) h = (take_absent n i l h.0, take-IsApart n l h.1)

pub length-take : (n : ℕ) (l : List String) → length (take n l) ≤ n
length-take zero l = omega arith
length-take (suc n) [] = omega arith
length-take (suc n) (i ∷ l) = omega (arith, length-take n l)

pub take_all : (n : ℕ) (l : List String) → length l ≤ n → take n l ≡ l
take_all zero [] h = refl
take_all zero (i ∷ l) h = absurd (omega arith)
take_all (suc n) [] h = refl
take_all (suc n) (i ∷ l) h = ap (λ (r : List String). i ∷ r) (take_all n l (omega (arith, h)))

pub touch-IsApart : (k : String) (h : List String) → IsApart h → IsApart (k ∷ remove k h)
touch-IsApart k h a = (mem-remove k k h a ∙ simp (eq_refl k) refl, remove-IsApart k h a)

pub take-touch :
    (n : ℕ) (k : String) (h : List String)
    → 0 < n
    → take n (k ∷ remove k (take n h)) ≡ take n (k ∷ remove k h)
take-touch zero k h pos = absurd (omega (arith, pos))
take-touch (suc n) k h pos = ap (λ (l : List String). k ∷ l) (take-remove-take n k h)

pub mem-touch :
    (k j : String) (l : List String)
    → IsApart l
    → mem j (k ∷ remove k l) ≡ (if k == j then true else mem j l)
mem-touch k j l a = elim (Bool-cases (k == j)) [
  | inl same ↦ simp (same) refl
  | inr other ↦ simp (other) (mem-remove k j l a ∙ simp (other) refl)
]

-- To use a key again that is among the first `n`.
pub touch_within :
    (n : ℕ) (k : String) (h : List String)
    → 0 < n
    → mem k (take n h) ≡ true
    → k ∷ remove k (take n h) ≡ take n (k ∷ remove k h)
touch_within n k h pos here =
    sym (
      take_all n (k ∷ remove k (take n h))
        (omega (arith, length-remove_present k (take n h) here, length-take n h)))
    ∙ take-touch n k h pos

pub mem-touch_within :
    (n : ℕ) (k j : String) (h : List String)
    → 0 < n
    → IsApart h
    → mem k (take n h) ≡ true
    → mem j (take n h) ≡ mem j (take n (k ∷ remove k h))
mem-touch_within n k j h pos a here =
    sym (mem-touch k j (take n h) (take-IsApart n h a) ∙ was_there)
    ∙ ap (mem j) (touch_within n k h pos here)
  where
    was_there : (if k == j then true else mem j (take n h)) ≡ mem j (take n h)
    was_there = elim (Bool-cases (k == j)) [
      | inl same ↦
          simp (same)
            (sym (ap (λ (i : String). mem i (take n h)) (sym ((eq_iff k j).0 same)) ∙ here))
      | inr other ↦ simp (other) refl
    ]
