-- ===== src/Schema/Merging.antt =====
-- What a merge keeps, and where it departs from `widen_type`.
use agora_etl.Prelude.{
  ℕ, ◌+◌, Bool, true, false, not, ◌&&◌, ◌||◌, Option, none, some, List, [], ◌∷◌, ◌==◌,
  if◌then◌else◌, ◌≡◌, refl, sym, arith,
}
use mathlib.Core.Path.{subst}
use agora_etl.Schema.{
  DataType, string, integer, float, null, same, can_widen, widen_type, Column, Columns, get_column,
  set_column,
}
use agora_etl.Schema.Evolution.{
  SchemaContract, freeze, is_freeze, SchemaChange, Schema, Evolve, resume, record_change,
  merge_column, merge_with, handle_new_column, merge_existing, add_unless, merge_added, evolved,
  merge_columns, merge, merged_column,
}

-- A column that two schemas share: where no error is raised, the merged type is one that both types
-- can be widened to, the column is nullable if either is, and the sample counts are added.
pub merge_column_bounds :
    (contract : SchemaContract) (old new : Column) (ch : List SchemaChange) (c : Column)
    → (merge_column contract old new ch).0 ≡ some c
    → (can_widen old.data_type c.data_type ≡ true)
      × (can_widen new.data_type c.data_type ≡ true)
      × (c.name ≡ old.name)
      × (c.nullable ≡ (old.nullable || new.nullable))
      × (c.inferred_from ≡ old.inferred_from + new.inferred_from)
unfolding merge_column widen_type can_widen record_change
merge_column_bounds contract old new ch c h = ground arith

-- A float column that meets integers, and a column of another type than string that meets nulls only.
abbrev pub departs : DataType → DataType → Bool
departs old new =
    (same old float && same new integer)
    || (same new null && not (same old null) && not (same old string))

-- Under every contract but FREEZE the merge gives a column, and its type is the one that
-- `widen_type` computes, with two exceptions: a float column that meets an integer column becomes a
-- string column, and so does any column but a string or null one that meets a null column.
pub merge_column-widen_type :
    (contract : SchemaContract) (old new : Column) (ch : List SchemaChange)
    → is_freeze contract ≡ false
    → (merge_column contract old new ch).0
      ≡ some (
          merged_column
            (if departs old.data_type new.data_type
              then string
              else widen_type old.data_type new.data_type)
            old
            new)
unfolding merge_column widen_type can_widen record_change
merge_column-widen_type contract old new ch h = ground arith

-- Nothing of the changes that were recorded before is lost, and none is added.
abbrev Unchanged : {A : Type 0} → List SchemaChange → Option A × List SchemaChange → Type 0
Unchanged ch (none, ch') = Unit {0}
Unchanged ch (some a, ch') = ch' ≡ ch

abbrev Calm : {A : Type 0} → Evolve A → Type 0
Calm m = (ch : List SchemaChange) → Unchanged ch (m ch)

resume-Calm :
    {A B : Type 0} (ch : List SchemaChange) (r : Option A × List SchemaChange) (f : A → Evolve B)
    → Unchanged ch r
    → ((a : A) → Calm (f a))
    → Unchanged ch (resume r.0 f r.1)
resume-Calm ch (none, ch') f h k = tt
resume-Calm ch (some a, ch') f h k = subst (λ x. Unchanged x (f a ch')) h (k a ch')

merge_column-Calm : (old new : Column) → Calm (merge_column freeze old new)
unfolding merge_column record_change widen_type can_widen
merge_column-Calm old new ch = ground arith

merge_with-Calm : (o : Option Column) (old : Column) → Calm (merge_with freeze o old)
merge_with-Calm none old ch = refl
merge_with-Calm (some new) old ch = merge_column-Calm old new ch

merge_existing-Calm : (cs new merged : Columns) → Calm (merge_existing freeze cs new merged)
unfolding merge_existing
merge_existing-Calm [] new merged ch = refl
merge_existing-Calm ((n, c) ∷ cs) new merged ch =
    resume-Calm ch (merge_with freeze (get_column n new) c ch) _
      (merge_with-Calm (get_column n new) c ch)
      (λ d. merge_existing-Calm cs new (set_column n d merged))

add_unless-Calm :
    (o : Option Column) (n : ℕ) (c : Column) (m : Columns) → Calm (add_unless freeze o n c m)
unfolding handle_new_column
add_unless-Calm none n c m ch = tt
add_unless-Calm (some d) n c m ch = refl

merge_added-Calm : (old cs merged : Columns) → Calm (merge_added freeze old cs merged)
unfolding merge_added
merge_added-Calm old [] merged ch = refl
merge_added-Calm old ((n, c) ∷ cs) merged ch =
    resume-Calm ch (add_unless freeze (get_column n old) n c merged ch) _
      (add_unless-Calm (get_column n old) n c merged ch) (λ m. merge_added-Calm old cs m)

module _ (old : Schema) where
  abbrev Frozen : Option Schema × List SchemaChange → Type 0
  Frozen (none, ch) = Unit {0}
  Frozen (some s, ch) = (ch ≡ []) × (s.version ≡ old.version) × (s.table ≡ old.table)

  resume-Frozen :
      {A : Type 0} (r : Option A × List SchemaChange) (f : A → Evolve Schema)
      → Unchanged [] r
      → ((a : A) → Frozen (f a []))
      → Frozen (resume r.0 f r.1)
  resume-Frozen (none, ch) f h k = tt
  resume-Frozen (some a, ch) f h k = subst (λ c. Frozen (f a c)) (sym h) (k a)

  Frozen-at :
      (r : Option Schema × List SchemaChange) (s : Schema) (ch : List SchemaChange)
      → Frozen r
      → r ≡ (some s, ch)
      → (ch ≡ []) × (s.version ≡ old.version) × (s.table ≡ old.table)
  Frozen-at r s ch h same_result = subst Frozen same_result h

  evolved-Frozen :
      (compute_hash : ℕ → Columns → ℕ) (cs : Columns)
      → Frozen (evolved freeze compute_hash old cs [])
  evolved-Frozen compute_hash cs = (refl, omega arith, refl)

  Frozen-if :
      (x y : Option Schema × List SchemaChange) (b : Bool)
      → Frozen x
      → Frozen y
      → Frozen (if b then x else y)
  Frozen-if x y true h k = h
  Frozen-if x y false h k = k

  merge_columns-Frozen :
      (compute_hash : ℕ → Columns → ℕ) (new : Schema)
      → Frozen (merge_columns freeze compute_hash old new [])
  merge_columns-Frozen compute_hash new =
      resume-Frozen (merge_existing freeze old.columns new.columns [] []) _
        (merge_existing-Calm old.columns new.columns [] [])
        (λ kept.
          resume-Frozen (merge_added freeze old.columns new.columns kept []) _
            (merge_added-Calm old.columns new.columns kept [])
            (λ cs. evolved-Frozen compute_hash cs))

  merge-Frozen :
      (compute_hash : ℕ → Columns → ℕ) (new : Schema) → Frozen (merge freeze compute_hash old new)
  unfolding merge
  merge-Frozen compute_hash new =
      Frozen-if (some old, []) (merge_columns freeze compute_hash old new []) (old.hash == new.hash)
        (refl, refl, refl) (merge_columns-Frozen compute_hash new)

  -- Under FREEZE a merge that raises nothing reports no change, and keeps the table and the version.
  pub merge_frozen :
      (compute_hash : ℕ → Columns → ℕ) (new s : Schema) (ch : List SchemaChange)
      → merge freeze compute_hash old new ≡ (some s, ch)
      → (ch ≡ []) × (s.version ≡ old.version) × (s.table ≡ old.table)
  merge_frozen compute_hash new s ch h =
      Frozen-at (merge freeze compute_hash old new) s ch (merge-Frozen compute_hash new) h
