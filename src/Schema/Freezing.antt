-- ===== src/Schema/Freezing.antt =====
-- The columns of a schema under FREEZE.
use agora_etl.Prelude.{
  ℕ, Bool, true, false, Option, none, some, List, [], ◌∷◌, ◌==◌, if◌then◌else◌, ◌≡◌, refl, sym, ◌∙◌,
  arith, Bool-cases, inl, inr,
}
use mathlib.Core.Path.{subst}
use agora_etl.Schema.{
  DataType, same, can_widen, widen_type, Column, Columns, get_column, set_column,
}
use agora_etl.Schema.Evolution.{
  freeze, SchemaChange, Schema, Evolve, resume, record_change, merge_column, merge_with,
  merge_existing, add_unless, handle_new_column, merge_added, merge_columns, merge,
}
use agora_etl.Schema.Widening.{type_of, get_column-set_column, get_column_same}
use agora_etl.Schema.Lookup.{IsDict}

-- The type of the column under a name.
abbrev pub type_at : ℕ → Columns → Option DataType
type_at n cs = type_of (get_column n cs)

set_column-IsDict : (k : ℕ) (d : Column) (cs : Columns) → IsDict cs → IsDict (set_column k d cs)
set_column-IsDict k d [] h = (refl, tt)
set_column-IsDict k d ((m, c) ∷ cs) (fresh, h) = elim (Bool-cases (k == m)) [
  | inl here ↦ rw here (fresh, h)
  | inr other ↦
      rw other
        (get_column-set_column m k d cs ∙ ground (arith, fresh, other), set_column-IsDict k d cs h)
]

-- A result, where there is one, is a dictionary with these types.
abbrev HasTypes : Option Columns → (ℕ → Option DataType) → Type 0
HasTypes none f = Unit {0}
HasTypes (some m) f = IsDict m × ((n : ℕ) → type_at n m ≡ f n)

abbrev Holds : {A : Type 0} → (A → Type 0) → Option A → Type 0
Holds P none = Unit {0}
Holds P (some a) = P a

abbrev KeepsType : Option Column → Column → Type 0
KeepsType o old = Holds (λ d. d.data_type ≡ old.data_type) o

merge_column-KeepsType :
    (old new : Column) (ch : List SchemaChange) → KeepsType (merge_column freeze old new ch).0 old
unfolding merge_column widen_type can_widen record_change
merge_column-KeepsType old new ch = ground arith

merge_with-KeepsType :
    (o : Option Column) (old : Column) (ch : List SchemaChange)
    → KeepsType (merge_with freeze o old ch).0 old
merge_with-KeepsType none old ch = refl
merge_with-KeepsType (some new) old ch = merge_column-KeepsType old new ch

-- The types after the first loop over the rest of the old columns.
abbrev over : Option Column → Option DataType → Option DataType
over none before = before
over (some c) before = some c.data_type

resume-HasTypes :
    {A : Type 0} (r : Option A × List SchemaChange) (k : A → Evolve Columns) (P : A → Type 0)
    (f : ℕ → Option DataType)
    → Holds P r.0
    → ((a : A) (ch : List SchemaChange) → P a → HasTypes (k a ch).0 f)
    → HasTypes (resume r.0 k r.1).0 f
resume-HasTypes (none, ch) k P f h step = tt
resume-HasTypes (some a, ch) k P f h step = step a ch h

HasTypes-other :
    (o : Option Columns) (f f' : ℕ → Option DataType)
    → ((n : ℕ) → f n ≡ f' n)
    → HasTypes o f
    → HasTypes o f'
HasTypes-other none f f' same h = tt
HasTypes-other (some m) f f' same (d, h) = (d, λ n. h n ∙ same n)

over_step :
    (m n : ℕ) (c d : Column) (cs merged : Columns)
    → get_column m cs ≡ none
    → d.data_type ≡ c.data_type
    → over (get_column n cs) (type_at n (set_column m d merged))
      ≡ over (get_column n ((m, c) ∷ cs)) (type_at n merged)
over_step m n c d cs merged fresh same =
    simp (get_column-set_column n m d merged) (ground (arith, fresh, same, get_column_same n m cs))

merge_existing-HasTypes :
    (cs new merged : Columns) (ch : List SchemaChange)
    → IsDict cs
    → IsDict merged
    → HasTypes
        (merge_existing freeze cs new merged ch).0
        (λ n. over (get_column n cs) (type_at n merged))
unfolding merge_existing
merge_existing-HasTypes [] new merged ch h k = (k, λ n. refl)
merge_existing-HasTypes ((m, c) ∷ cs) new merged ch (fresh, h) k =
    resume-HasTypes (merge_with freeze (get_column m new) c ch) _ (λ d. d.data_type ≡ c.data_type) _
      (merge_with-KeepsType (get_column m new) c ch)
      (λ d ch' same.
        HasTypes-other _ _ _ (λ n. over_step m n c d cs merged fresh same)
          (merge_existing-HasTypes cs new (set_column m d merged) ch' h
            (set_column-IsDict m d merged k)))

-- The second loop adds nothing.
add_unless_same :
    (o : Option Column) (n : ℕ) (c : Column) (merged : Columns) (ch : List SchemaChange)
    → Holds (λ m. m ≡ merged) (add_unless freeze o n c merged ch).0
unfolding handle_new_column
add_unless_same none n c merged ch = tt
add_unless_same (some d) n c merged ch = refl

merge_added-HasTypes :
    (old cs merged : Columns) (f : ℕ → Option DataType) (ch : List SchemaChange)
    → HasTypes (some merged) f
    → HasTypes (merge_added freeze old cs merged ch).0 f
unfolding merge_added
merge_added-HasTypes old [] merged f ch h = h
merge_added-HasTypes old ((n, c) ∷ cs) merged f ch h =
    resume-HasTypes (add_unless freeze (get_column n old) n c merged ch) _ (λ m. m ≡ merged) f
      (add_unless_same (get_column n old) n c merged ch)
      (λ m ch' same.
        subst (λ x. HasTypes (merge_added freeze old cs x ch').0 f) (sym same)
          (merge_added-HasTypes old cs merged f ch' h))

-- The schema that a merge gives, if any.
abbrev Keeps : Option Schema → (ℕ → Option DataType) → Type 0
Keeps none f = Unit {0}
Keeps (some s) f = IsDict s.columns × ((n : ℕ) → type_at n s.columns ≡ f n)

bind-Keeps :
    (r : Option Columns × List SchemaChange) (k : Columns → Evolve Schema)
    (f g : ℕ → Option DataType)
    → HasTypes r.0 f
    → ((m : Columns) (ch : List SchemaChange) → HasTypes (some m) f → Keeps (k m ch).0 g)
    → Keeps (resume r.0 k r.1).0 g
bind-Keeps (none, ch) k f g h step = tt
bind-Keeps (some m, ch) k f g h step = step m ch h

over-none : (o : Option Column) → over o none ≡ type_of o
over-none none = refl
over-none (some c) = refl

module _ (compute_hash : ℕ → Columns → ℕ) (old new : Schema) (is_dict : IsDict old.columns) where
  merge_columns-Keeps :
      Keeps (merge_columns freeze compute_hash old new []).0 (λ n. type_at n old.columns)
  merge_columns-Keeps =
      bind-Keeps (merge_existing freeze old.columns new.columns [] []) _ _ _
        (merge_existing-HasTypes old.columns new.columns [] [] is_dict tt)
        (λ m ch first.
          bind-Keeps (merge_added freeze old.columns new.columns m ch) _ _ _
            (merge_added-HasTypes old.columns new.columns m _ ch first)
            (λ all ch' last. (last.0, λ n. last.1 n ∙ over-none (get_column n old.columns))))

  either-Keeps :
      (b : Bool) (x y : Option Schema × List SchemaChange) (f : ℕ → Option DataType)
      → Keeps x.0 f
      → Keeps y.0 f
      → Keeps (if b then x else y).0 f
  either-Keeps true x y f h k = h
  either-Keeps false x y f h k = k

  merge-Keeps : Keeps (merge freeze compute_hash old new).0 (λ n. type_at n old.columns)
  unfolding merge
  merge-Keeps =
      either-Keeps (old.hash == new.hash) (some old, [])
        (merge_columns freeze compute_hash old new []) (λ n. type_at n old.columns)
        (is_dict, λ n. refl) merge_columns-Keeps

  -- A merge under FREEZE that raises nothing gives a schema with the same column names and types.
  pub merge_keeps_types :
      (s : Schema)
      → (merge freeze compute_hash old new).0 ≡ some s
      → IsDict s.columns × ((n : ℕ) → type_at n s.columns ≡ type_at n old.columns)
  merge_keeps_types s h = subst (λ o. Keeps o (λ n. type_at n old.columns)) h merge-Keeps
