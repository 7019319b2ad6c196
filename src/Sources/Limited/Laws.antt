-- ===== src/Sources/Limited/Laws.antt =====
-- Batches are cut where the records are.
use agora_etl.Prelude.{
  ℕ, zero, suc, ◌-◌, ◌≤◌, List, [], ◌∷◌, ◌++◌, take, length, leb, ◌≡◌, refl, ap, sym, ◌∙◌,
  Bool-cases, inl, inr, arith,
}
use agora_etl.Sources.{Stream, finished, failed, yields, values}
use agora_etl.Sources.Limited.{limit_batches, limit_items}

abbrev pub concat : {A : Type 0} → List (List A) → List A
concat [] = []
concat (xs ∷ xss) = xs ++ concat xss

module _ {A : Type 0} where
  take-append_short :
      (n : ℕ) (xs ys : List A) → length xs ≤ n → take n (xs ++ ys) ≡ xs ++ take (n - length xs) ys
  take-append_short n [] ys h = ap (λ (m : ℕ). take m ys) (omega arith)
  take-append_short zero (x ∷ xs) ys h = absurd (omega (arith, h))
  take-append_short (suc n) (x ∷ xs) ys h =
      ap (λ (l : List A). x ∷ l)
        (take-append_short n xs ys (omega (arith, h))
          ∙ ap (λ (m : ℕ). xs ++ take m ys) (omega arith))

  take-append_long : (n : ℕ) (xs ys : List A) → n ≤ length xs → take n (xs ++ ys) ≡ take n xs
  take-append_long zero xs ys h = refl
  take-append_long (suc n) [] ys h = absurd (omega (arith, h))
  take-append_long (suc n) (x ∷ xs) ys h =
      ap (λ (l : List A). x ∷ l) (take-append_long n xs ys (omega (arith, h)))

  pub append-nil : (xs : List A) → xs ++ [] ≡ xs
  append-nil [] = refl
  append-nil (x ∷ xs) = ap (λ (l : List A). x ∷ l) (append-nil xs)

  take-nil : (n : ℕ) → take {A = A} n [] ≡ []
  take-nil zero = refl
  take-nil (suc n) = refl

module _ {S E A : Type 0} where
  -- The limited batches hold the first `n` records of the batches.
  pub concat-limit_batches :
      (n : ℕ) (s : S) (st : Stream S E (List A))
      → concat (values (limit_batches n s st)) ≡ take n (concat (values st))
  unfolding limit_batches
  concat-limit_batches zero s st = refl
  concat-limit_batches (suc n) s (finished s') = refl
  concat-limit_batches (suc n) s (failed e s') = refl
  concat-limit_batches (suc n) s (yields batch s' st) =
      elim (Bool-cases (leb (length batch) (suc n))) [
        | inl fits ↦ rw fits (
            ap (λ (l : List A). batch ++ l) (concat-limit_batches (suc n - length batch) s' st)
            ∙ sym (take-append_short (suc n) batch (concat (values st)) (ground arith)))
        | inr long ↦ rw long (
            append-nil (take (suc n) batch)
            ∙ sym (take-append_long (suc n) batch (concat (values st)) (ground arith)))
      ]

  pub values-limit_items :
      (n : ℕ) (s : S) (st : Stream S E A) → values (limit_items n s st) ≡ take n (values st)
  unfolding limit_items
  values-limit_items zero s st = refl
  values-limit_items (suc n) s (finished s') = refl
  values-limit_items (suc n) s (failed e s') = refl
  values-limit_items (suc n) s (yields a s' st) =
      ap (λ (l : List A). a ∷ l) (values-limit_items n s' st)
