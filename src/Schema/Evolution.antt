-- ===== src/Schema/Evolution.antt =====
-- schema/evolution.py: `SchemaEvolution` and `evolve_schema`. The content hash of types.py (SHA-256
-- of a JSON text) is a parameter. The messages of changes and errors are left out.
use agora_etl.Prelude.{
  ℕ, ◌+◌, Bool, true, false, ◌||◌, Option, none, some, List, [], ◌∷◌, ◌++◌, ◌==◌, if◌then◌else◌,
}
use agora_etl.Schema.{
  DataType, string, same, can_widen, widen_type, Column, Columns, get_column, set_column,
}

pub data SchemaContract : Type 0 where
  evolve freeze discard_column discard_row : SchemaContract

pub data ChangeType : Type 0 where
  column_added type_widened type_conflict column_discarded : ChangeType

pub record SchemaChange : Type 0 where
  pub change_type : ChangeType
  pub column_name : ℕ
  pub old_value : Option DataType
  pub new_value : Option DataType

pub record Schema : Type 0 where
  pub table : ℕ
  pub columns : Columns
  pub version : ℕ
  pub hash : ℕ

-- The handler's `changes`, and the result; `none` where `SchemaEvolutionError` is raised.
abbrev pub Evolve : Type 0 → Type 0
Evolve A = List SchemaChange → Option A × List SchemaChange

module _ {A : Type 0} where
  abbrev pub pure : A → Evolve A
  pure a ch = (some a, ch)

  abbrev pub raise : Evolve A
  raise ch = (none, ch)

module _ {A B : Type 0} where
  abbrev pub resume : Option A → (A → Evolve B) → Evolve B
  resume none f ch = (none, ch)
  resume (some a) f ch = f a ch

  infixl 5 ◌>>=◌ ◌>>◌
  abbrev pub ◌>>=◌ : Evolve A → (A → Evolve B) → Evolve B
  ◌>>=◌ m f ch = let (o, ch') = m ch in resume o f ch'

  abbrev pub ◌>>◌ : Evolve A → Evolve B → Evolve B
  m >> n = m >>= λ _. n

unfoldable pub record_change : SchemaChange → Evolve (Unit {0})
record_change c ch = (some tt, ch ++ c ∷ [])

abbrev pub is_freeze : SchemaContract → Bool
is_freeze freeze = true
is_freeze _ = false

-- The column that `_merge_column` builds, of a given type.
abbrev pub merged_column : DataType → Column → Column → Column
merged_column t old new = record {
  name = old.name;
  data_type = t;
  nullable = old.nullable || new.nullable;
  inferred_from = old.inferred_from + new.inferred_from;
}

abbrev pub type_change : ChangeType → Column → DataType → SchemaChange
type_change k old t = record {
  change_type = k;
  column_name = old.name;
  old_value = some old.data_type;
  new_value = some t;
}

abbrev pub any_change : List SchemaChange → Bool
any_change [] = false
any_change (c ∷ cs) = true

module _ (contract : SchemaContract) where
  abbrev pub checked : SchemaChange → Column → Evolve Column
  checked change c = do record_change change; if is_freeze contract then raise else pure c

  abbrev pub widen_column : DataType → Column → Column → Evolve Column
  widen_column widened old new =
      if same widened old.data_type
      then pure (merged_column widened old new)
      else checked (type_change type_widened old widened) (merged_column widened old new)

  unfoldable pub merge_column : Column → Column → Evolve Column
  merge_column old new =
      if same old.data_type new.data_type
      then pure (merged_column old.data_type old new)
      else if can_widen old.data_type new.data_type
      then widen_column (widen_type old.data_type new.data_type) old new
      else checked (type_change type_conflict old new.data_type) (merged_column string old new)

  abbrev pub column_change : ChangeType → ℕ → Column → SchemaChange
  column_change k name c = record {
    change_type = k;
    column_name = name;
    old_value = none;
    new_value = some c.data_type;
  }

  abbrev pub new_column_under : SchemaContract → ℕ → Column → Columns → Evolve Columns
  new_column_under evolve name c merged = do
    record_change (column_change column_added name c)
    pure (set_column name c merged)
  new_column_under freeze name c merged = raise
  new_column_under discard_column name c merged = do
    record_change (column_change column_discarded name c)
    pure merged
  new_column_under discard_row name c merged = pure merged

  unfoldable pub handle_new_column : ℕ → Column → Columns → Evolve Columns
  handle_new_column = new_column_under contract

  abbrev pub merge_with : Option Column → Column → Evolve Column
  merge_with none old = pure old
  merge_with (some new) old = merge_column old new

  -- The loop over `old.columns`
  unfoldable pub merge_existing : Columns → Columns → Columns → Evolve Columns
  merge_existing [] new merged = pure merged
  merge_existing ((n, c) ∷ cs) new merged = do
    d ← merge_with (get_column n new) c
    merge_existing cs new (set_column n d merged)

  abbrev pub add_unless : Option Column → ℕ → Column → Columns → Evolve Columns
  add_unless none n c merged = handle_new_column n c merged
  add_unless (some _) n c merged = pure merged

  -- The loop over `new.columns`
  unfoldable pub merge_added : Columns → Columns → Columns → Evolve Columns
  merge_added old [] merged = pure merged
  merge_added old ((n, c) ∷ cs) merged = do
    next ← add_unless (get_column n old) n c merged
    merge_added old cs next

  module _ (compute_hash : ℕ → Columns → ℕ) where
    abbrev pub make_schema : ℕ → Columns → ℕ → Schema
    make_schema t cs v = record { table = t; columns = cs; version = v; hash = compute_hash t cs }

    abbrev pub evolved : Schema → Columns → Evolve Schema
    evolved old cs ch =
        (some (make_schema old.table cs (old.version + (if any_change ch then 1 else 0))), ch)

    abbrev pub merge_columns : Schema → Schema → Evolve Schema
    merge_columns old new = do
      kept ← merge_existing old.columns new.columns []
      all ← merge_added old.columns new.columns kept
      evolved old all

    -- `merge` empties `changes` first.
    unfoldable pub merge : Schema → Schema → Option Schema × List SchemaChange
    merge old new = if old.hash == new.hash then (some old, []) else merge_columns old new []
