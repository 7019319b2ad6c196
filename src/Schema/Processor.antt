-- ===== src/Schema/Processor.antt =====
-- schema/runtime.py: `SchemaProcessor`, and schema/records.py, for records that are dictionaries.
pub mod Nulls
pub mod Frozen
use agora_etl.Prelude.{
  ℕ, ◌+◌, Bool, true, false, not, ◌&&◌, ◌||◌, Option, none, some, List, [], ◌∷◌, length, ◌==◌,
  if◌then◌else◌,
}
use agora_etl.Schema.{
  DataType, null, same, can_widen, infer_python_type, Column, Columns, get_column, Fields, observe,
}
use agora_etl.Schema.Evolution.{
  SchemaContract, evolve, freeze, discard_column, discard_row, is_freeze, ChangeType, column_added,
  type_widened, type_conflict, column_discarded, SchemaChange, Schema, make_schema, merge,
}

pub record SchemaMetrics : Type 0 where
  pub records_observed : ℕ
  pub columns_added : ℕ
  pub types_widened : ℕ
  pub type_conflicts : ℕ
  pub schema_version : ℕ

-- `pending_error` says whether an error is kept; which one it is makes no difference here.
pub record SchemaProcessor : Type 0 where
  pub table : ℕ
  pub contract : SchemaContract
  pub current_schema : Option Schema
  pub pending_error : Bool
  pub metrics : SchemaMetrics

-- The record that is forwarded, if any, with the changes; or an error that is raised.
pub data ProcessResult : Type 0 where
  forwarded : Option Fields → List SchemaChange → ProcessResult
  evolution_error : ProcessResult

abbrev pub field_violates : Option Column → DataType → Bool
field_violates none t = true
field_violates (some c) t =
    if same t null
    then false
    else if not (same t c.data_type) && not (can_widen c.data_type t)
    then true
    else not (same t c.data_type)

unfoldable pub record_violates_schema : Fields → Columns → Bool
record_violates_schema [] cs = false
record_violates_schema ((n, v) ∷ fs) cs =
    field_violates (get_column n cs) (infer_python_type v) || record_violates_schema fs cs

abbrev has_column : Option Column → Bool
has_column none = false
has_column (some c) = true

unfoldable pub discard_unknown_columns : Fields → Columns → Fields
discard_unknown_columns [] cs = []
discard_unknown_columns ((n, v) ∷ fs) cs =
    let rest = discard_unknown_columns fs cs in
    if has_column (get_column n cs) then (n, v) ∷ rest else rest

abbrev same_change : ChangeType → ChangeType → Bool
same_change column_added column_added = true
same_change type_widened type_widened = true
same_change type_conflict type_conflict = true
same_change column_discarded column_discarded = true
same_change _ _ = false

abbrev pub count_changes : ChangeType → List SchemaChange → ℕ
count_changes k [] = 0
count_changes k (c ∷ cs) =
    let rest = count_changes k cs in if same_change k c.change_type then rest + 1 else rest

abbrev pub observed_record : SchemaProcessor → SchemaProcessor
observed_record p = record p {
  metrics = record p.metrics { records_observed = p.metrics.records_observed + 1 };
}

-- The changes of a first schema are listed by name in the source, here in the order of the columns.
abbrev initial_schema_changes : Columns → List SchemaChange
initial_schema_changes [] = []
initial_schema_changes ((n, c) ∷ cs) =
    record {
      change_type = column_added;
      column_name = n;
      old_value = none;
      new_value = some c.data_type;
    }
    ∷ initial_schema_changes cs

module _ (compute_hash : ℕ → Columns → ℕ) where
  -- `_infer_record_schema`, for a schema of version 1
  abbrev pub record_schema : SchemaProcessor → Fields → Schema
  record_schema p fs = make_schema p.contract compute_hash p.table (observe fs []) 1

  abbrev pub with_merged :
      Option Schema
      → List SchemaChange
      → Schema
      → Fields
      → SchemaProcessor
      → ProcessResult × SchemaProcessor
  with_merged none changes current fs p =
      if is_freeze p.contract
      then (forwarded none [], record p { pending_error = true })
      else (evolution_error, p)
  with_merged (some merged) changes current fs p = (
    forwarded (some fs) changes,
    record p {
      current_schema = some merged;
      metrics = record p.metrics {
        columns_added = p.metrics.columns_added + count_changes column_added changes;
        types_widened = p.metrics.types_widened + count_changes type_widened changes;
        type_conflicts = p.metrics.type_conflicts + count_changes type_conflict changes;
        schema_version = merged.version;
      };
    },
  )

  abbrev pub evolve_in :
      Option Schema → Schema → Fields → SchemaProcessor → ProcessResult × SchemaProcessor
  evolve_in none inferred fs p = (
    forwarded (some fs) (initial_schema_changes inferred.columns),
    record p {
      current_schema = some inferred;
      metrics = record p.metrics {
        columns_added = p.metrics.columns_added + length inferred.columns;
        schema_version = inferred.version;
      };
    },
  )
  evolve_in (some current) inferred fs p =
      let (merged, changes) = merge p.contract compute_hash current inferred in
      with_merged merged changes current fs p

  abbrev pub track : Fields → SchemaProcessor → ProcessResult × SchemaProcessor
  track fs p =
      let q = observed_record p in
      if length (record_schema p fs).columns == 0
      then (forwarded (some fs) [], q)
      else evolve_in p.current_schema (record_schema p fs) fs q

  abbrev pub process_under :
      SchemaContract → Schema → Fields → SchemaProcessor → ProcessResult × SchemaProcessor
  process_under discard_row s fs p =
      if record_violates_schema fs s.columns then (forwarded none [], p) else track fs p
  process_under discard_column s fs p = track (discard_unknown_columns fs s.columns) p
  process_under evolve s fs p = track fs p
  process_under freeze s fs p = track fs p

  abbrev pub process_in : Option Schema → Fields → SchemaProcessor → ProcessResult × SchemaProcessor
  process_in none fs p = track fs p
  process_in (some s) fs p = process_under p.contract s fs p

  unfoldable pub process : Fields → SchemaProcessor → ProcessResult × SchemaProcessor
  process fs p = process_in p.current_schema fs p
