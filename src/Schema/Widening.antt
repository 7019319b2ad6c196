-- ===== src/Schema/Widening.antt =====
-- The column types as an order, and `widen_type` as its join.
use agora_etl.Prelude.{
  ℕ, Bool, true, ◌&&◌, Option, none, some, List, [], ◌∷◌, ◌++◌, ◌==◌, ==_iff, if◌then◌else◌, ◌≡◌,
  ◌↔◌, refl, sym, ap, ◌∙◌, arith,
}
use agora_etl.Schema.{
  DataType, string, null, infer_python_type, can_widen, widen_type, Column, Columns, get_column,
  set_column, Fields, observed, observe_in, observe_field, observe, observe_all, infer_schema,
  PythonValue,
}

-- `widen_type` is commutative and associative, and `can_widen` says when it changes nothing: the
-- types are a join semilattice with `null` below all others and `string` above them.
pub widen_type-can_widen :
    (a b c : DataType)
    → (widen_type a b ≡ widen_type b a)
      × (widen_type (widen_type a b) c ≡ widen_type a (widen_type b c))
      × ((can_widen a b ≡ true) ↔ (widen_type a b ≡ b))
      × (can_widen null a ≡ true)
      × (can_widen a string ≡ true)
unfolding widen_type can_widen
widen_type-can_widen a b c = ground arith

can_widen_left : (a b c : DataType) → can_widen (widen_type a b) c ≡ true → can_widen a c ≡ true
unfolding widen_type can_widen
can_widen_left a b c h = ground arith

can_widen_right : (a b c : DataType) → can_widen (widen_type a b) c ≡ true → can_widen b c ≡ true
unfolding widen_type can_widen
can_widen_right a b c h = ground arith

widen_type_least :
    (a b c : DataType)
    → can_widen a c ≡ true
    → can_widen b c ≡ true
    → can_widen (widen_type a b) c ≡ true
unfolding widen_type can_widen
widen_type_least a b c h k = ground arith

can_widen_refl : (a : DataType) → can_widen a a ≡ true
unfolding can_widen
can_widen_refl a = ground arith

-- The values that stand under a name, in all records.
abbrev pub values_in : ℕ → Fields → List PythonValue
values_in n [] = []
values_in n ((m, v) ∷ fs) = let rest = values_in n fs in if n == m then v ∷ rest else rest

abbrev pub values_of : ℕ → List Fields → List PythonValue
values_of n [] = []
values_of n (f ∷ fs) = values_in n f ++ values_of n fs

-- Every value's type can be widened to `t`.
abbrev pub all_widen : List PythonValue → DataType → Bool
all_widen [] t = true
all_widen (v ∷ vs) t = can_widen (infer_python_type v) t && all_widen vs t

abbrev pub type_of : Option Column → Option DataType
type_of none = none
type_of (some c) = some c.data_type

abbrev absorb : Option DataType → DataType → DataType
absorb none t = t
absorb (some s) t = widen_type s t

abbrev absorb_all : Option DataType → List PythonValue → Option DataType
absorb_all o [] = o
absorb_all o (v ∷ vs) = absorb_all (some (absorb o (infer_python_type v))) vs

absorb_all-append :
    (o : Option DataType) (us vs : List PythonValue)
    → absorb_all o (us ++ vs) ≡ absorb_all (absorb_all o us) vs
absorb_all-append o [] vs = refl
absorb_all-append o (u ∷ us) vs = absorb_all-append (some (absorb o (infer_python_type u))) us vs

pub get_column-set_column :
    (n m : ℕ) (c : Column) (cs : Columns)
    → get_column n (set_column m c cs) ≡ (if n == m then some c else get_column n cs)
get_column-set_column n m c [] = refl
get_column-set_column n m c ((k, d) ∷ cs) = ground (arith, get_column-set_column n m c cs)

observed_type :
    (v : PythonValue) (c : Column)
    → (observed v c).data_type ≡ widen_type c.data_type (infer_python_type v)
unfolding widen_type
observed_type v c = ground arith

pub get_column_same : (n m : ℕ) (cs : Columns) → (n == m) ≡ true → get_column n cs ≡ get_column m cs
get_column_same n m cs h = ap (λ k. get_column k cs) ((==_iff n m).0 h)

abbrev first_seen : ℕ → PythonValue → Column
first_seen m v = record {
  name = m;
  data_type = infer_python_type v;
  nullable = true;
  inferred_from = 1;
}

observe_in_type :
    (o : Option Column) (n m : ℕ) (v : PythonValue) (cs : Columns)
    → get_column m cs ≡ o
    → type_of (get_column n (observe_in o m v cs)) ≡ (
        if n == m
        then some (absorb (type_of (get_column n cs)) (infer_python_type v))
        else type_of (get_column n cs))
observe_in_type none n m v cs h =
    simp (get_column-set_column n m (first_seen m v) cs) (ground (arith, h, get_column_same n m cs))
observe_in_type (some c) n m v cs h =
    simp (get_column-set_column n m (observed v c) cs)
      (ground (arith, h, observed_type v c, get_column_same n m cs))

observe_type :
    (n : ℕ) (fs : Fields) (cs : Columns)
    → type_of (get_column n (observe fs cs))
      ≡ absorb_all (type_of (get_column n cs)) (values_in n fs)
unfolding observe observe_field
observe_type n [] cs = refl
observe_type n ((m, v) ∷ fs) cs = ground (
  arith,
  observe_type n fs (observe_field m v cs),
  observe_in_type (get_column m cs) n m v cs refl,
)

observe_all_type :
    (n : ℕ) (records : List Fields) (cs : Columns)
    → type_of (get_column n (observe_all records cs))
      ≡ absorb_all (type_of (get_column n cs)) (values_of n records)
observe_all_type n [] cs = refl
observe_all_type n (f ∷ fs) cs =
    observe_all_type n fs (observe f cs)
    ∙ ap (λ o. absorb_all o (values_of n fs)) (observe_type n f cs)
    ∙ sym (absorb_all-append (type_of (get_column n cs)) (values_in n f) (values_of n fs))

-- What `absorb_all` makes of the type `s` and the values: their least upper bound.
absorb_least :
    (s d : DataType) (vs : List PythonValue)
    → absorb_all (some s) vs ≡ some d
    → (can_widen s d ≡ true)
      × (all_widen vs d ≡ true)
      × ((t : DataType) → can_widen s t ≡ true → all_widen vs t ≡ true → can_widen d t ≡ true)
absorb_least s d [] h = (ground (arith, can_widen_refl s, h), refl, λ t k l. ground (arith, h, k))
absorb_least s d (v ∷ vs) h =
    let (above, all, least) = absorb_least (widen_type s (infer_python_type v)) d vs h in
    (
      can_widen_left s (infer_python_type v) d above,
      ground (arith, all, can_widen_right s (infer_python_type v) d above),
      λ t k l.
          least t (widen_type_least s (infer_python_type v) t k (ground (arith, l)))
            (ground (arith, l)),
    )

absorb_none :
    (d : DataType) (vs : List PythonValue)
    → absorb_all none vs ≡ some d
    → (all_widen vs d ≡ true) × ((t : DataType) → all_widen vs t ≡ true → can_widen d t ≡ true)
absorb_none d [] h = ground arith
absorb_none d (v ∷ vs) h =
    let (above, all, least) = absorb_least (infer_python_type v) d vs h in
    (ground (arith, above, all), λ t l. least t (ground (arith, l)) (ground (arith, l)))

-- The type that is inferred for a column is the least type that every value under its name, in any
-- of the records, can be widened to.
pub infer_schema-least :
    (records : List Fields) (n : ℕ) (c : Column)
    → get_column n (infer_schema records) ≡ some c
    → (all_widen (values_of n records) c.data_type ≡ true)
      × ((t : DataType) → all_widen (values_of n records) t ≡ true → can_widen c.data_type t ≡ true)
unfolding infer_schema
infer_schema-least records n c h =
    absorb_none c.data_type (values_of n records)
      (sym (observe_all_type n records []) ∙ ap type_of h)
