-- ===== src/Schema/Processor/Nulls.antt =====
-- A record with a null under the DISCARD_ROW contract, and what comes after it.
use agora_etl.Prelude.{ℕ, ◌+◌, true, false, none, some, [], ◌∷◌, ◌==◌, ==_iff, ◌≡◌, refl, arith}
use agora_etl.Schema.{
  string, null, same, can_widen, infer_python_type, PythonValue, none_value, Column, Columns,
  Fields, observe, observe_field,
}
use agora_etl.Schema.Evolution.{
  discard_row, Schema, make_schema, merge, merge_column, merge_existing, merge_added, merged_column,
  record_change,
}
use agora_etl.Schema.Processor.{
  SchemaMetrics, SchemaProcessor, ProcessResult, forwarded, record_violates_schema, process,
}

-- The column that an inferrer makes of a null.
abbrev pub null_column : ℕ → Column
null_column n = record { name = n; data_type = null; nullable = true; inferred_from = 1 }

eq_self : (n : ℕ) → (n == n) ≡ true
eq_self n = (==_iff n n).1 refl

merge_null :
    (compute_hash : ℕ → Columns → ℕ) (table n version hash h : ℕ) (c : Column)
    → same c.data_type null ≡ false
    → (hash == h) ≡ false
    → (merge discard_row compute_hash
        (record { table = table; columns = (n, c) ∷ []; version = version; hash = hash })
        (record { table = table; columns = (n, null_column n) ∷ []; version = 1; hash = h })).0
      ≡ some (
          make_schema discard_row compute_hash table
            ((n, merged_column string c (null_column n)) ∷ [])
            (version + 1))
unfolding merge merge_existing merge_added merge_column can_widen record_change
merge_null compute_hash table n version hash h c k l = simp (l, eq_self n) (ground (arith, k))

-- A processor under DISCARD_ROW whose schema has one column.
abbrev pub one_column : (ℕ → Columns → ℕ) → ℕ → ℕ → ℕ → Column → SchemaMetrics → SchemaProcessor
one_column compute_hash table version n c metrics = record {
  table = table;
  contract = discard_row;
  current_schema = some (make_schema discard_row compute_hash table ((n, c) ∷ []) version);
  pending_error = false;
  metrics = metrics;
}

module _ (compute_hash : ℕ → Columns → ℕ) (table version n : ℕ) (c : Column)
    (metrics : SchemaMetrics) where
  abbrev start : SchemaProcessor
  start = one_column compute_hash table version n c metrics

  abbrev after_null : ProcessResult × SchemaProcessor
  after_null = process compute_hash ((n, none_value) ∷ []) start

  null_processed :
      same c.data_type null ≡ false
      → (compute_hash table ((n, c) ∷ []) == compute_hash table ((n, null_column n) ∷ [])) ≡ false
      → after_null.1.current_schema
        ≡ some (
            make_schema discard_row compute_hash table
              ((n, merged_column string c (null_column n)) ∷ [])
              (version + 1))
  unfolding process record_violates_schema observe observe_field infer_python_type
  null_processed k l =
      simp
        (
          eq_self n,
          merge_null compute_hash table n version (compute_hash table ((n, c) ∷ []))
              (compute_hash table ((n, null_column n) ∷ [])) c k l,
        )
        refl

  null_contract :
      same c.data_type null ≡ false
      → (compute_hash table ((n, c) ∷ []) == compute_hash table ((n, null_column n) ∷ [])) ≡ false
      → after_null.1.contract ≡ discard_row
  unfolding process record_violates_schema observe observe_field infer_python_type
  null_contract k l =
      simp
        (
          eq_self n,
          merge_null compute_hash table n version (compute_hash table ((n, c) ∷ []))
              (compute_hash table ((n, null_column n) ∷ [])) c k l,
        )
        refl

  rejected :
      (fs : Fields) (s : Schema) (p : SchemaProcessor)
      → p.contract ≡ discard_row
      → p.current_schema ≡ some s
      → record_violates_schema fs s.columns ≡ true
      → process compute_hash fs p ≡ (forwarded none [], p)
  unfolding process
  rejected fs s p k l violates = simp (l, k, violates) refl

  string_violates :
      (v : PythonValue) (d : Column)
      → d.data_type ≡ string
      → same (infer_python_type v) null ≡ false
      → same (infer_python_type v) string ≡ false
      → record_violates_schema ((n, v) ∷ []) ((n, d) ∷ []) ≡ true
  unfolding record_violates_schema can_widen
  string_violates v d is_string k l = simp (eq_self n, is_string) (ground (arith, k, l))

  -- Under DISCARD_ROW, for a schema of one column whose type is neither null nor string, and where the
  -- content hash tells the two schemas apart: a null in this column makes it a string column, and the
  -- next record with a value of the column's own type, which fitted before, is dropped.
  pub discard_row_null :
      (v : PythonValue)
      → infer_python_type v ≡ c.data_type
      → same c.data_type null ≡ false
      → same c.data_type string ≡ false
      → (compute_hash table ((n, c) ∷ []) == compute_hash table ((n, null_column n) ∷ [])) ≡ false
      → (record_violates_schema ((n, v) ∷ []) ((n, c) ∷ []) ≡ false)
        × (process compute_hash ((n, v) ∷ []) (process compute_hash ((n, none_value) ∷ []) start).1
            ≡ (forwarded none [], (process compute_hash ((n, none_value) ∷ []) start).1))
  unfolding record_violates_schema
  discard_row_null v own k l differ = (
    simp (eq_self n, own) (ground (arith, k)),
    rejected ((n, v) ∷ []) _ after_null.1 (null_contract k differ) (null_processed k differ)
        (string_violates v (merged_column string c (null_column n)) refl (simp own k) (simp own l)),
  )
