-- ===== src/Memory/Agrees.antt =====
-- The store agrees with a map in which nothing is removed for its age.
use Prim.Native.String.{String}
use text.Mathlib.Text.{◌==◌, starts_with}
use text.Mathlib.TextEquality.{eq_iff}
use agora_etl.Prelude.{
  ℕ, ◌≤◌, Bool, true, false, inl, inr, Bool-cases, Option, none, some, if◌then◌else◌, ◌≡◌, refl,
  sym, ap, ◌∙◌, arith,
}
use mathlib.Core.Path.{subst}
use agora_etl.Memory.Counts.{fresh}
use agora_etl.Memory.Finds.{
  find-put_same, find-put_other, find-pop_other, find-pop_at, find-pop_all, IsDistinct,
  put-IsDistinct, pop-IsDistinct, pop_all-IsDistinct, past, mem, mem-expired_keys, mem-keys_with,
}
use agora_etl.Memory.{
  StoredValue, Values, find, put, pop, pop_all, is_past, expired, get, get_found, expired_keys,
  keys_with,
}

abbrev pub live : ℕ → String → Values → Option StoredValue
live now k vs = fresh now (find k vs)

expired_later : (e : StoredValue) (m n : ℕ) → m ≤ n → expired m e ≡ true → expired n e ≡ true
expired_later e m n le h = go e.expires_at h
  where
    go : (t : Option ℕ) → is_past m t ≡ true → is_past n t ≡ true
    go none h = h
    go (some t) h = ground (arith, le, h)

if_gone : (b : Bool) (e : StoredValue) → b ≡ true → (if b then none else some e) ≡ none
if_gone b e h = simp (h) refl

if_stays : (b : Bool) (e : StoredValue) → b ≡ false → (if b then none else some e) ≡ some e
if_stays b e h = simp (h) refl

-- The map: what was stored under a key last, and whether that is still to be had.
abbrev pub Map : Type 0
Map = String → Option StoredValue

abbrev pub update : String → Option StoredValue → Map → Map
update k o m j = if k == j then o else m j

-- From now on, a key has in the backend what it has in the map.
pub record Agrees (now : ℕ) (vs : Values) (m : Map) : Type 0 where
  pub distinct : IsDistinct vs
  pub same : (n : ℕ) (j : String) → now ≤ n → live n j vs ≡ fresh n (m j)

pub put-Agrees :
    (now : ℕ) (k : String) (e : StoredValue) (vs : Values) (m : Map)
    → Agrees now vs m
    → Agrees now (put k e vs) (update k (some e) m)
put-Agrees now k e vs m h = record {
  distinct = put-IsDistinct k e vs h.distinct;
  same = λ n j le. elim (Bool-cases (k == j)) [
    | inl at ↦ simp (at) (
        ap (fresh n) (
          subst (λ (s : String). find s (put k e vs) ≡ some e) ((eq_iff k j).0 at)
            (find-put_same k e vs)))
    | inr other ↦ simp (other) (ap (fresh n) (find-put_other k j other e vs) ∙ h.same n j le)
  ];
}

pub pop-Agrees :
    (now : ℕ) (k : String) (vs : Values) (m : Map)
    → Agrees now vs m
    → Agrees now (pop k vs) (update k none m)
pop-Agrees now k vs m h = record {
  distinct = pop-IsDistinct k vs h.distinct;
  same = λ n j le. elim (Bool-cases (k == j)) [
    | inl at ↦ simp (at) (ap (fresh n) (find-pop_at k j vs at))
    | inr other ↦ simp (other) (ap (fresh n) (find-pop_other k j other vs) ∙ h.same n j le)
  ];
}

fresh-purged :
    (now n : ℕ) (o : Option StoredValue)
    → now ≤ n
    → fresh n (if past now o then none else o) ≡ fresh n o
fresh-purged now n none le = refl
fresh-purged now n (some e) le = elim (Bool-cases (expired now e)) [
  | inl gone ↦ simp (gone, expired_later e now n le gone) refl
  | inr stays ↦ simp (stays) refl
]

pub purge-Agrees :
    (now : ℕ) (vs : Values) (m : Map)
    → Agrees now vs m
    → Agrees now (pop_all (expired_keys now vs) vs) m
purge-Agrees now vs m h = record {
  distinct = pop_all-IsDistinct (expired_keys now vs) vs h.distinct;
  same = λ n j le.
      ap (fresh n) (
        find-pop_all j (expired_keys now vs) vs
        ∙ ap (λ (b : Bool). if b then none else find j vs) (mem-expired_keys now j vs h.distinct))
      ∙ fresh-purged now n (find j vs) le
      ∙ h.same n j le;
}

under_prefix :
    (prefix j : String) (vs : Values)
    → find j (pop_all (keys_with prefix vs) vs) ≡ (if starts_with j prefix then none else find j vs)
under_prefix prefix j vs =
    find-pop_all j (keys_with prefix vs) vs ∙ (elim (Bool-cases (starts_with j prefix)) [
      | inr outside ↦ simp (outside, (mem-keys_with prefix j vs).0 outside) refl
      | inl under ↦ elim (Bool-cases (mem j (keys_with prefix vs))) [
        | inl listed ↦ simp (under, listed) refl
        | inr missing ↦ simp (under, missing) ((mem-keys_with prefix j vs).1 under missing)
      ]
    ])

pub prefix-Agrees :
    (now : ℕ) (prefix : String) (vs : Values) (m : Map)
    → Agrees now vs m
    → Agrees now
        (pop_all (keys_with prefix vs) vs)
        (λ j. if starts_with j prefix then none else m j)
prefix-Agrees now prefix vs m h = record {
  distinct = pop_all-IsDistinct (keys_with prefix vs) vs h.distinct;
  same = λ n j le.
      ap (fresh n) (under_prefix prefix j vs) ∙ (elim (Bool-cases (starts_with j prefix)) [
        | inl under ↦ simp (under) refl
        | inr outside ↦ simp (outside) (h.same n j le)
      ]);
}

drop-Agrees :
    (now : ℕ) (k : String) (e : StoredValue) (vs : Values) (m : Map)
    → find k vs ≡ some e
    → expired now e ≡ true
    → Agrees now vs m
    → Agrees now (pop k vs) m
drop-Agrees now k e vs m here gone h = record {
  distinct = pop-IsDistinct k vs h.distinct;
  same = λ n j le. elim (Bool-cases (k == j)) [
    | inl at ↦
        let away : fresh n (some e) ≡ none = simp (expired_later e now n le gone) refl in
        ap (fresh n) (find-pop_at k j vs at)
        ∙ sym away
        ∙ ap (fresh n) (sym here)
        ∙ ap (λ (s : String). fresh n (find s vs)) ((eq_iff k j).0 at)
        ∙ h.same n j le
    | inr other ↦ ap (fresh n) (find-pop_other k j other vs) ∙ h.same n j le
  ];
}

-- `get` answers what is live, and leaves the store agreeing.
pub record Got (now : ℕ) (k : String) (r : Option StoredValue × Values) (m : Map) : Type 0 where
  pub answer : r.0 ≡ fresh now (m k)
  pub agrees : Agrees now r.1 m

get_found-Got :
    (now : ℕ) (k : String) (o : Option StoredValue) (vs : Values) (m : Map)
    → find k vs ≡ o
    → Agrees now vs m
    → Got now k (get_found now k o vs) m
get_found-Got now k none vs m at h = record {
  answer = ap (fresh now) (sym at) ∙ h.same now k (omega arith);
  agrees = h;
}
get_found-Got now k (some e) vs m at h =
    let live_now = ap (fresh now) (sym at) ∙ h.same now k (omega arith) in
    elim (Bool-cases (expired now e)) [
      | inl gone ↦ simp (gone) (record {
        answer = sym (if_gone (expired now e) e gone) ∙ live_now;
        agrees = drop-Agrees now k e vs m at gone h;
      })
      | inr stays ↦
          simp (stays)
            (record { answer = sym (if_stays (expired now e) e stays) ∙ live_now; agrees = h })
    ]

pub get-Got :
    (now : ℕ) (k : String) (vs : Values) (m : Map) → Agrees now vs m → Got now k (get now k vs) m
unfolding get
get-Got now k vs m h = get_found-Got now k (find k vs) vs m refl h
