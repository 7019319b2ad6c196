-- ===== src/Memory/Counts.antt =====
-- The keys that `count_prefix` and `delete_prefix` count.
use Prim.Native.String.{String}
use text.Mathlib.Text.{◌==◌, starts_with}
use text.Mathlib.TextEquality.{eq_iff}
use mathlib.Core.Path.{subst}
use agora_etl.Prelude.{
  ℕ, suc, Bool, true, false, inl, inr, Bool-cases, Option, none, some, List, [], ◌∷◌, length,
  if◌then◌else◌, ◌≡◌, refl, sym, ap, ◌∙◌, arith,
}
use agora_etl.Memory.{StoredValue, Values, find, expired, live_count, keys_with}
use agora_etl.Memory.Finds.{IsDistinct, mem}

-- An entry, unless it has expired.
abbrev pub fresh : ℕ → Option StoredValue → Option StoredValue
fresh now none = none
fresh now (some e) = if expired now e then none else some e

abbrev pub some_found : Option StoredValue → Bool
some_found none = false
some_found (some e) = true

abbrev pub both : Bool → Bool → Bool
both true b = b
both false b = false

-- No key stands twice.
abbrev pub IsApart : List String → Type 0
IsApart [] = Unit {0}
IsApart (k ∷ ks) = (mem k ks ≡ false) × IsApart ks

abbrev pub live_keys : ℕ → String → Values → List String
live_keys now prefix [] = []
live_keys now prefix ((k, e) ∷ vs) =
    let rest = live_keys now prefix vs in
    if expired now e then rest else (if starts_with k prefix then k ∷ rest else rest)

pub length-live_keys :
    (now : ℕ) (prefix : String) (vs : Values)
    → length (live_keys now prefix vs) ≡ live_count now prefix vs
length-live_keys now prefix [] = refl
length-live_keys now prefix ((k, e) ∷ vs) = elim (Bool-cases (expired now e)) [
  | inl gone ↦ simp (gone) (length-live_keys now prefix vs)
  | inr stays ↦ elim (Bool-cases (starts_with k prefix)) [
    | inl under ↦ simp (stays, under) (ap suc (length-live_keys now prefix vs))
    | inr outside ↦ simp (stays, outside) (length-live_keys now prefix vs)
  ]
]

nothing_under : (b : Bool) → both b false ≡ false
nothing_under true = refl
nothing_under false = refl

pub mem-live_keys :
    (now : ℕ) (prefix j : String) (vs : Values)
    → IsDistinct vs
    → mem j (live_keys now prefix vs)
      ≡ both (starts_with j prefix) (some_found (fresh now (find j vs)))
mem-live_keys now prefix j [] h = sym (nothing_under (starts_with j prefix))
mem-live_keys now prefix j ((l, e) ∷ vs) h = elim (Bool-cases (l == j)) [
  | inl same ↦ at ((eq_iff l j).0 same) same (mem-live_keys now prefix j vs h.1)
  | inr other ↦ elim (Bool-cases (expired now e)) [
    | inl gone ↦ simp (other, gone) (mem-live_keys now prefix j vs h.1)
    | inr stays ↦ elim (Bool-cases (starts_with l prefix)) [
      | inl under ↦ simp (other, stays, under) (mem-live_keys now prefix j vs h.1)
      | inr outside ↦ simp (other, stays, outside) (mem-live_keys now prefix j vs h.1)
    ]
  ]
]
  where
    at :
        l ≡ j
        → (l == j) ≡ true
        → mem j (live_keys now prefix vs)
          ≡ both (starts_with j prefix) (some_found (fresh now (find j vs)))
        → mem j (live_keys now prefix ((l, e) ∷ vs))
          ≡ both (starts_with j prefix) (some_found (fresh now (find j ((l, e) ∷ vs))))
    at here same rest =
        let absent : mem j (live_keys now prefix vs) ≡ false =
          rest
          ∙ ap (λ (o : Option StoredValue). both (starts_with j prefix) (some_found (fresh now o)))
              (subst (λ (s : String). find s vs ≡ none) here h.0)
          ∙ nothing_under (starts_with j prefix) in
        elim (Bool-cases (expired now e)) [
          | inl gone ↦ simp (same, gone) (absent ∙ sym (nothing_under (starts_with j prefix)))
          | inr stays ↦ elim (Bool-cases (starts_with j prefix)) [
            | inl under ↦
                simp
                  (
                    same,
                    stays,
                    under,
                    subst (λ (s : String). starts_with s prefix ≡ true) (sym here) under,
                  )
                  refl
            | inr outside ↦
                simp
                  (
                    same,
                    stays,
                    outside,
                    subst (λ (s : String). starts_with s prefix ≡ false) (sym here) outside,
                  )
                  absent
          ]
        ]

pub live_keys-IsApart :
    (now : ℕ) (prefix : String) (vs : Values) → IsDistinct vs → IsApart (live_keys now prefix vs)
live_keys-IsApart now prefix [] h = tt
live_keys-IsApart now prefix ((k, e) ∷ vs) h =
    let absent : mem k (live_keys now prefix vs) ≡ false =
      mem-live_keys now prefix k vs h.1
      ∙ ap (λ (o : Option StoredValue). both (starts_with k prefix) (some_found (fresh now o))) h.0
      ∙ nothing_under (starts_with k prefix) in
    elim (Bool-cases (expired now e)) [
      | inl gone ↦ simp (gone) (live_keys-IsApart now prefix vs h.1)
      | inr stays ↦ elim (Bool-cases (starts_with k prefix)) [
        | inl under ↦ simp (stays, under) (absent, live_keys-IsApart now prefix vs h.1)
        | inr outside ↦ simp (stays, outside) (live_keys-IsApart now prefix vs h.1)
      ]
    ]

absent-keys_with :
    (prefix k : String) (vs : Values) → find k vs ≡ none → mem k (keys_with prefix vs) ≡ false
absent-keys_with prefix k [] h = refl
absent-keys_with prefix k ((l, e) ∷ vs) h = elim (Bool-cases (l == k)) [
  | inl same ↦ no_entry (find k vs) same h
  | inr other ↦
      let away : find k vs ≡ none = sym (if_other (l == k) other) ∙ h in
      elim (Bool-cases (starts_with l prefix)) [
        | inl under ↦ simp (under, other) (absent-keys_with prefix k vs away)
        | inr outside ↦ simp (outside) (absent-keys_with prefix k vs away)
      ]
]
  where
    if_other : (b : Bool) → b ≡ false → (if b then some e else find k vs) ≡ find k vs
    if_other b h = simp (h) refl

    no_entry :
        (o : Option StoredValue)
        → (l == k) ≡ true
        → (if l == k then some e else o) ≡ none
        → mem k (keys_with prefix ((l, e) ∷ vs)) ≡ false
    no_entry o same h = ground (arith, same, h)

pub keys_with-IsApart :
    (prefix : String) (vs : Values) → IsDistinct vs → IsApart (keys_with prefix vs)
keys_with-IsApart prefix [] h = tt
keys_with-IsApart prefix ((k, e) ∷ vs) h = elim (Bool-cases (starts_with k prefix)) [
  | inl under ↦ simp (under) (absent-keys_with prefix k vs h.0, keys_with-IsApart prefix vs h.1)
  | inr outside ↦ simp (outside) (keys_with-IsApart prefix vs h.1)
]
