-- ===== src/Dedup/Apart.antt =====
-- Keys of two lists that stand once in both together.
use Prim.Native.String.{String}
use text.Mathlib.Text.{◌==◌}
use text.Mathlib.TextEquality.{eq_iff}
use mathlib.Core.Path.{subst}
use agora_etl.Prelude.{
  true, false, inl, inr, Bool-cases, List, [], ◌∷◌, ◌++◌, if◌then◌else◌, ◌≡◌, refl, arith,
}
use agora_etl.Memory.Counts.{IsApart}
use agora_etl.Memory.Finds.{mem, differ_sym}
use agora_etl.Dedup.{remove}

pub mem-append :
    (k : String) (xs ys : List String) → mem k (xs ++ ys) ≡ (if mem k xs then true else mem k ys)
mem-append k [] ys = refl
mem-append k (x ∷ xs) ys = ground (arith, mem-append k xs ys)

-- To put a key between two lists, and to take one from the first.
between :
    (k j : String) (xs ys : List String)
    → mem j (xs ++ ys) ≡ false
    → (k == j) ≡ false
    → mem j (xs ++ k ∷ ys) ≡ false
between k j [] ys h d = simp (d) h
between k j (x ∷ xs) ys h d = ground (arith, h, d, between k j xs ys)

between-IsApart :
    (k : String) (xs ys : List String)
    → mem k (xs ++ ys) ≡ false
    → IsApart (xs ++ ys)
    → IsApart (xs ++ k ∷ ys)
between-IsApart k [] ys m h = (m, h)
between-IsApart k (x ∷ xs) ys m h = elim (Bool-cases (x == k)) [
  | inl same ↦ absurd_of (mem_here same m)
  | inr other ↦
      (between k x xs ys h.0 (differ_sym x k other), between-IsApart k xs ys (mem_rest other m) h.1)
]
  where
    absurd_of : true ≡ false → IsApart ((x ∷ xs) ++ k ∷ ys)
    absurd_of e = cc

    mem_here : (x == k) ≡ true → mem k ((x ∷ xs) ++ ys) ≡ false → true ≡ false
    mem_here e h = ground (arith, e, h)

    mem_rest : (x == k) ≡ false → mem k ((x ∷ xs) ++ ys) ≡ false → mem k (xs ++ ys) ≡ false
    mem_rest e h = ground (arith, e, h)

left :
    (k j : String) (xs ys : List String)
    → mem j (xs ++ ys) ≡ false
    → mem j (remove k xs ++ ys) ≡ false
left k j [] ys h = h
left k j (x ∷ xs) ys h = ground (arith, h, left k j xs ys)

pub left-IsApart :
    (k : String) (xs ys : List String) → IsApart (xs ++ ys) → IsApart (remove k xs ++ ys)
left-IsApart k [] ys h = h
left-IsApart k (x ∷ xs) ys h = elim (Bool-cases (x == k)) [
  | inl same ↦ simp (same) h.1
  | inr other ↦ simp (other) (left k x xs ys h.0, left-IsApart k xs ys h.1)
]

pub taken :
    (k : String) (xs ys : List String)
    → mem k xs ≡ true
    → IsApart (xs ++ ys)
    → mem k (remove k xs ++ ys) ≡ false
taken k [] ys m h = ground (arith, m)
taken k (x ∷ xs) ys m h = elim (Bool-cases (x == k)) [
  | inl same ↦
      simp (same) (subst (λ (i : String). mem i (xs ++ ys) ≡ false) ((eq_iff x k).0 same) h.0)
  | inr other ↦ simp (other) (taken k xs ys (mem_rest other m) h.1)
]
  where
    mem_rest : (x == k) ≡ false → mem k (x ∷ xs) ≡ true → mem k xs ≡ true
    mem_rest e h = ground (arith, e, h)

pub moved-IsApart :
    (k : String) (xs ys : List String)
    → mem k xs ≡ true
    → IsApart (xs ++ ys)
    → IsApart (remove k xs ++ k ∷ ys)
moved-IsApart k xs ys m h =
    between-IsApart k (remove k xs) ys (taken k xs ys m h) (left-IsApart k xs ys h)

pub mem_left : (k : String) (xs ys : List String) → mem k (xs ++ ys) ≡ false → mem k xs ≡ false
mem_left k xs ys h = ground (arith, h, mem-append k xs ys)
