-- ===== src/Memory/Finds.antt =====
-- What the dictionary holds under a key after an assignment and after keys are popped.
use Prim.Native.String.{String}
use text.Mathlib.Text.{◌==◌, starts_with}
use text.Mathlib.TextEquality.{eq_iff}
use text.Mathlib.TextPositions.{eq_refl}
use mathlib.Core.Path.{subst}
use agora_etl.Prelude.{
  ℕ, Bool, true, false, inl, inr, Bool-cases, Option, none, some, List, [], ◌∷◌, if◌then◌else◌, ◌≡◌,
  refl, sym, ap, ◌∙◌, arith,
}
use agora_etl.Memory.{
  StoredValue, Values, find, put, pop, pop_all, expired, expired_keys, keys_with,
}

pub find-put_same : (k : String) (e : StoredValue) (vs : Values) → find k (put k e vs) ≡ some e
find-put_same k e [] = simp (eq_refl k) refl
find-put_same k e ((l, d) ∷ vs) = elim (Bool-cases (l == k)) [
  | inl same ↦ simp (same) refl
  | inr other ↦ simp (other) (find-put_same k e vs)
]

module _ (k j : String) (differ : (k == j) ≡ false) where
  not_both : (l : String) → (l == k) ≡ true → (l == j) ≡ false
  not_both l h = subst (λ (s : String). (s == j) ≡ false) (sym ((eq_iff l k).0 h)) differ

  pub find-put_other : (e : StoredValue) (vs : Values) → find j (put k e vs) ≡ find j vs
  find-put_other e [] = simp (differ) refl
  find-put_other e ((l, d) ∷ vs) = elim (Bool-cases (l == k)) [
    | inl same ↦ simp (same, not_both l same) refl
    | inr other ↦ elim (Bool-cases (l == j)) [
      | inl here ↦ simp (other, here) refl
      | inr away ↦ simp (other, away) (find-put_other e vs)
    ]
  ]

  pub find-pop_other : (vs : Values) → find j (pop k vs) ≡ find j vs
  find-pop_other [] = refl
  find-pop_other ((l, d) ∷ vs) = elim (Bool-cases (l == k)) [
    | inl same ↦ simp (same, not_both l same) (find-pop_other vs)
    | inr other ↦ elim (Bool-cases (l == j)) [
      | inl here ↦ simp (other, here) refl
      | inr away ↦ simp (other, away) (find-pop_other vs)
    ]
  ]

pub find-pop_same : (k : String) (vs : Values) → find k (pop k vs) ≡ none
find-pop_same k [] = refl
find-pop_same k ((l, d) ∷ vs) = elim (Bool-cases (l == k)) [
  | inl same ↦ simp (same) (find-pop_same k vs)
  | inr other ↦ simp (other) (find-pop_same k vs)
]

abbrev pub mem : String → List String → Bool
mem j [] = false
mem j (k ∷ ks) = if k == j then true else mem j ks

pub find-pop_at : (k j : String) (vs : Values) → (k == j) ≡ true → find j (pop k vs) ≡ none
find-pop_at k j vs h =
    subst (λ (s : String). find s (pop k vs) ≡ none) ((eq_iff k j).0 h) (find-pop_same k vs)

pub find-pop_all :
    (j : String) (ks : List String) (vs : Values)
    → find j (pop_all ks vs) ≡ (if mem j ks then none else find j vs)
find-pop_all j [] vs = refl
find-pop_all j (k ∷ ks) vs = elim (Bool-cases (k == j)) [
  | inl same ↦ find-pop_all j ks (pop k vs) ∙ (elim (Bool-cases (mem j ks)) [
    | inl listed ↦ simp (same, listed) refl
    | inr unlisted ↦ simp (same, unlisted) (find-pop_at k j vs same)
  ])
  | inr other ↦ simp (other) (
      find-pop_all j ks (pop k vs)
      ∙ ap (λ (o : Option StoredValue). if mem j ks then none else o) (find-pop_other k j other vs))
]

-- A key stands once.
abbrev pub IsDistinct : Values → Type 0
IsDistinct [] = Unit {0}
IsDistinct ((k, e) ∷ vs) = (find k vs ≡ none) × IsDistinct vs

pub differ_sym : (a b : String) → (a == b) ≡ false → (b == a) ≡ false
differ_sym a b h = elim (Bool-cases (b == a)) [
  | inl same ↦
      let back : (a == b) ≡ true = (eq_iff a b).1 (sym ((eq_iff b a).0 same)) in
      ground (arith, h, back)
  | inr other ↦ other
]

pub put-IsDistinct :
    (k : String) (e : StoredValue) (vs : Values) → IsDistinct vs → IsDistinct (put k e vs)
put-IsDistinct k e [] h = (refl, tt)
put-IsDistinct k e ((l, d) ∷ vs) h = elim (Bool-cases (l == k)) [
  | inl same ↦ simp (same) h
  | inr other ↦
      simp (other) (find-put_other k l (differ_sym l k other) e vs ∙ h.0, put-IsDistinct k e vs h.1)
]

pub pop-IsDistinct : (k : String) (vs : Values) → IsDistinct vs → IsDistinct (pop k vs)
pop-IsDistinct k [] h = tt
pop-IsDistinct k ((l, d) ∷ vs) h = elim (Bool-cases (l == k)) [
  | inl same ↦ simp (same) (pop-IsDistinct k vs h.1)
  | inr other ↦
      simp (other) (find-pop_other k l (differ_sym l k other) vs ∙ h.0, pop-IsDistinct k vs h.1)
]

pub pop_all-IsDistinct :
    (ks : List String) (vs : Values) → IsDistinct vs → IsDistinct (pop_all ks vs)
pop_all-IsDistinct [] vs h = h
pop_all-IsDistinct (k ∷ ks) vs h = pop_all-IsDistinct ks (pop k vs) (pop-IsDistinct k vs h)

abbrev pub past : ℕ → Option StoredValue → Bool
past now none = false
past now (some e) = expired now e

pub mem-expired_keys :
    (now : ℕ) (j : String) (vs : Values)
    → IsDistinct vs
    → mem j (expired_keys now vs) ≡ past now (find j vs)
mem-expired_keys now j [] h = refl
mem-expired_keys now j ((l, e) ∷ vs) h = elim (Bool-cases (expired now e)) [
  | inl gone ↦ elim (Bool-cases (l == j)) [
    | inl same ↦ simp (gone, same) refl
    | inr other ↦ simp (gone, other) (mem-expired_keys now j vs h.1)
  ]
  | inr stays ↦ elim (Bool-cases (l == j)) [
    | inl same ↦
        let none_left : find j vs ≡ none =
          subst (λ (s : String). find s vs ≡ none) ((eq_iff l j).0 same) h.0 in
        simp (stays, same) (mem-expired_keys now j vs h.1 ∙ ap (past now) none_left)
    | inr other ↦ simp (stays, other) (mem-expired_keys now j vs h.1)
  ]
]

pub mem-keys_with :
    (prefix j : String) (vs : Values)
    → (starts_with j prefix ≡ false → mem j (keys_with prefix vs) ≡ false)
      × (starts_with j prefix ≡ true → mem j (keys_with prefix vs) ≡ false → find j vs ≡ none)
mem-keys_with prefix j [] = (λ h. refl, λ h k. refl)
mem-keys_with prefix j ((l, e) ∷ vs) = elim (Bool-cases (l == j)) [
  | inl same ↦ here ((eq_iff l j).0 same) same (mem-keys_with prefix j vs).0
  | inr other ↦ elim (Bool-cases (starts_with l prefix)) [
    | inl under ↦ simp (under, other) (mem-keys_with prefix j vs)
    | inr outside ↦ simp (outside, other) (mem-keys_with prefix j vs)
  ]
]
  where
    here :
        l ≡ j
        → (l == j) ≡ true
        → (starts_with j prefix ≡ false → mem j (keys_with prefix vs) ≡ false)
        → (starts_with j prefix ≡ false → mem j (keys_with prefix ((l, e) ∷ vs)) ≡ false)
          × (starts_with j prefix ≡ true
              → mem j (keys_with prefix ((l, e) ∷ vs)) ≡ false
              → find j ((l, e) ∷ vs) ≡ none)
    here at same rest = (
      λ outside.
          simp (subst (λ (s : String). starts_with s prefix ≡ false) (sym at) outside)
            (rest outside),
      λ under missing.
          let listed : mem j (keys_with prefix ((l, e) ∷ vs)) ≡ true =
            simp (subst (λ (s : String). starts_with s prefix ≡ true) (sym at) under, same) refl in
          ground (arith, listed, missing),
    )
