-- ===== src/Schema/Tests.antt =====
-- The schema theorems at concrete inputs.
use agora_etl.Prelude.{false, none}
use agora_etl.Schema.{code}
use agora_etl.Schema.Processor.{
  SchemaMetrics, SchemaProcessor, forwarded, record_violates_schema, process,
}
use agora_etl.Schema.Processor.Frozen.{IsFrozen, process_all, process_all-IsFrozen}
use agora_etl.Schema.Processor.Nulls.{one_column, discard_row_null}
use agora_etl.Schema.Freezing.{type_at}
use agora_etl.Schema.Lookup.{HasColumns, merged_lookup, merge-HasColumns}
use agora_etl.Prelude.{
  ℕ, ◌+◌, ◌||◌, true, Option, some, List, [], ◌∷◌, if◌then◌else◌, ◌≡◌, ◌↔◌, refl,
}
use agora_etl.Schema.{
  DataType, string, integer, float, boolean, null, int_value, float_value, none_value, Column,
  Columns, Fields, get_column, can_widen, widen_type, infer_schema, observe, observe_field,
  infer_python_type,
}
use agora_etl.Schema.Widening.{widen_type-can_widen, values_of, all_widen, infer_schema-least}
use agora_etl.Schema.Evolution.{
  evolve, freeze, Schema, SchemaChange, record_change, merge_column, merged_column, merge,
  merge_existing, merge_added, make_schema,
}
use agora_etl.Schema.Merging.{merge_column_bounds, merge_column-widen_type, merge_frozen, departs}

abbrev column : DataType → Column
column t = record { name = 1; data_type = t; nullable = true; inferred_from = 1 }

both_widen :
    (widen_type integer float ≡ widen_type float integer)
    × (widen_type (widen_type integer float) boolean
        ≡ widen_type integer (widen_type float boolean))
    × ((can_widen integer float ≡ true) ↔ (widen_type integer float ≡ float))
    × (can_widen null integer ≡ true)
    × (can_widen integer string ≡ true)
both_widen = widen_type-can_widen integer float boolean

-- A score that is a float in one record, an integer in the next and missing in the last.
abbrev scores : List Fields
scores = ((1, float_value) ∷ []) ∷ ((1, int_value) ∷ []) ∷ ((1, none_value) ∷ []) ∷ []

abbrev score : Column
score = record { name = 1; data_type = float; nullable = true; inferred_from = 3 }

score_is_float : get_column 1 (infer_schema scores) ≡ some score
unfolding infer_schema observe observe_field infer_python_type widen_type
score_is_float = refl

infer_schema-least_example :
    (all_widen (values_of 1 scores) float ≡ true)
    × ((t : DataType) → all_widen (values_of 1 scores) t ≡ true → can_widen float t ≡ true)
infer_schema-least_example = infer_schema-least scores 1 score score_is_float

abbrev mixed : Column
mixed = merged_column string (column float) (column integer)

-- Merged one record at a time, the same values make a string column.
merged_string : (merge_column evolve (column float) (column integer) []).0 ≡ some mixed
unfolding merge_column can_widen record_change
merged_string = refl

merge_column_bounds_example :
    (can_widen float string ≡ true)
    × (can_widen integer string ≡ true)
    × (mixed.name ≡ (column float).name)
    × (mixed.nullable ≡ ((column float).nullable || (column integer).nullable))
    × (mixed.inferred_from ≡ (column float).inferred_from + (column integer).inferred_from)
merge_column_bounds_example =
    merge_column_bounds evolve (column float) (column integer) [] mixed merged_string

merge_column-widen_type_example :
    (merge_column evolve (column integer) (column null) []).0
    ≡ some (
        merged_column
          (if departs integer null then string else widen_type integer null)
          (column integer)
          (column null))
merge_column-widen_type_example =
    merge_column-widen_type evolve (column integer) (column null) [] refl

abbrev digest : ℕ → Columns → ℕ
digest t cs = 0

abbrev people : Schema
people = record { table = 7; columns = (1, column integer) ∷ []; version = 4; hash = 1 }

abbrev more_people : Schema
more_people = record people { hash = 2 }

abbrev merged_people : Schema
merged_people =
    make_schema freeze digest 7 ((1, merged_column integer (column integer) (column integer)) ∷ [])
      4

abbrev no_changes : List SchemaChange
no_changes = []

people-merge : merge freeze digest people more_people ≡ (some merged_people, [])
unfolding merge merge_existing merge_added merge_column
people-merge = refl

frozen_people :
    (no_changes ≡ [])
    × (merged_people.version ≡ people.version)
    × (merged_people.table ≡ people.table)
frozen_people = merge_frozen people digest more_people merged_people [] people-merge

abbrev wider_people : Schema
wider_people = record people { columns = (2, column boolean) ∷ (1, column float) ∷ []; hash = 2 }

merge-HasColumns_example :
    HasColumns
      (merge evolve digest people wider_people).0
      (λ n. merged_lookup (get_column n people.columns) (get_column n wider_people.columns))
merge-HasColumns_example =
    merge-HasColumns digest people wider_people (refl, tt) (refl, (refl, tt)) refl

-- A content hash that tells the types of a first column apart.
abbrev type_digest : ℕ → Columns → ℕ
type_digest t [] = 0
type_digest t ((n, c) ∷ cs) = code c.data_type

abbrev no_metrics : SchemaMetrics
no_metrics = record {
  records_observed = 0;
  columns_added = 0;
  types_widened = 0;
  type_conflicts = 0;
  schema_version = 4;
}

abbrev integers : SchemaProcessor
integers = one_column type_digest 7 4 1 (column integer) no_metrics

int_is_integer : infer_python_type int_value ≡ integer
unfolding infer_python_type
int_is_integer = refl

discard_row_null_example :
    (record_violates_schema ((1, int_value) ∷ []) ((1, column integer) ∷ []) ≡ false)
    × (process type_digest
          ((1, int_value) ∷ [])
          (process type_digest ((1, none_value) ∷ []) integers).1
        ≡ (forwarded none [], (process type_digest ((1, none_value) ∷ []) integers).1))
discard_row_null_example =
    discard_row_null type_digest 7 4 1 (column integer) no_metrics int_value int_is_integer refl
      refl refl

abbrev frozen : SchemaProcessor
frozen = record integers { contract = freeze }

abbrev integer_types : ℕ → Option DataType
integer_types n = type_at n ((1, column integer) ∷ [])

frozen-IsFrozen : IsFrozen integer_types 4 frozen
frozen-IsFrozen = record {
  is_freeze = refl;
  schema = make_schema freeze type_digest 7 ((1, column integer) ∷ []) 4;
  is_current = refl;
  is_version = refl;
  is_dict = (refl, tt);
  has_types = λ n. refl;
}

-- The second record brings a new column.
process_all-IsFrozen_example :
    IsFrozen integer_types 4
      (process_all type_digest (((1, int_value) ∷ []) ∷ ((2, int_value) ∷ []) ∷ []) frozen)
process_all-IsFrozen_example =
    process_all-IsFrozen type_digest integer_types
      (((1, int_value) ∷ []) ∷ ((2, int_value) ∷ []) ∷ []) frozen 4 frozen-IsFrozen
