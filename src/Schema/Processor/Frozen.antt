-- ===== src/Schema/Processor/Frozen.antt =====
-- Runs of a processor under FREEZE.
use agora_etl.Prelude.{
  ℕ, Bool, true, false, Option, none, some, List, [], ◌∷◌, length, ◌==◌, if◌then◌else◌, ◌≡◌, refl,
  sym, ap, ◌∙◌, arith,
}
use mathlib.Core.Path.{subst}
use agora_etl.Schema.{DataType, Columns, Fields}
use agora_etl.Schema.Evolution.{SchemaContract, freeze, is_freeze, SchemaChange, Schema, merge}
use agora_etl.Schema.Merging.{merge_frozen}
use agora_etl.Schema.Lookup.{IsDict}
use agora_etl.Schema.Freezing.{type_at, merge_keeps_types}
use agora_etl.Schema.Processor.{
  SchemaProcessor, ProcessResult, observed_record, record_schema, with_merged, evolve_in, track,
  process_under, process_in, process,
}

-- The contract is FREEZE, and the current schema has these column types and this version.
pub record IsFrozen (types : ℕ → Option DataType) (v : ℕ) (p : SchemaProcessor) : Type 0 where
  pub is_freeze : p.contract ≡ freeze
  pub schema : Schema
  pub is_current : p.current_schema ≡ some schema
  pub is_version : schema.version ≡ v
  pub is_dict : IsDict schema.columns
  pub has_types : (n : ℕ) → type_at n schema.columns ≡ types n

abbrev AsBefore : (ℕ → Option DataType) → ℕ → Schema → Type 0
AsBefore types v m = (m.version ≡ v) × IsDict m.columns × ((n : ℕ) → type_at n m.columns ≡ types n)

-- The processor after a list of records.
abbrev pub process_all : (ℕ → Columns → ℕ) → List Fields → SchemaProcessor → SchemaProcessor
process_all compute_hash [] p = p
process_all compute_hash (fs ∷ rest) p = process_all compute_hash rest (process compute_hash fs p).1

module _ (compute_hash : ℕ → Columns → ℕ) (types : ℕ → Option DataType) where
  either-IsFrozen :
      (b : Bool) (x y : ProcessResult × SchemaProcessor) (v : ℕ)
      → IsFrozen types v x.1
      → IsFrozen types v y.1
      → IsFrozen types v (if b then x else y).1
  either-IsFrozen true x y v h k = h
  either-IsFrozen false x y v h k = k

  with_merged-IsFrozen :
      (merged : Option Schema) (changes : List SchemaChange) (current : Schema) (fs : Fields)
      (p : SchemaProcessor) (v : ℕ)
      → IsFrozen types v p
      → ((m : Schema) → merged ≡ some m → AsBefore types v m)
      → IsFrozen types v (with_merged compute_hash merged changes current fs p).1
  with_merged-IsFrozen none changes current fs p v h k =
      either-IsFrozen (is_freeze p.contract) _ _ v
        (record {
          is_freeze = h.is_freeze;
          schema = h.schema;
          is_current = h.is_current;
          is_version = h.is_version;
          is_dict = h.is_dict;
          has_types = h.has_types;
        })
        h
  with_merged-IsFrozen (some m) changes current fs p v h k = record {
    is_freeze = h.is_freeze;
    schema = m;
    is_current = refl;
    is_version = (k m refl).0;
    is_dict = (k m refl).1;
    has_types = (k m refl).2;
  }

  merge_version :
      (contract : SchemaContract) (old new m : Schema) (v : ℕ)
      → contract ≡ freeze
      → AsBefore types v old
      → (merge contract compute_hash old new).0 ≡ some m
      → AsBefore types v m
  merge_version contract old new m v is (version, is_dict, has_types) h =
      let frozen = subst (λ (c : SchemaContract). (merge c compute_hash old new).0 ≡ some m) is h in
      let kept =
        merge_frozen old compute_hash new m (merge freeze compute_hash old new).1
          (ap (λ (o : Option Schema). (o, (merge freeze compute_hash old new).1)) frozen) in
      let same = merge_keeps_types compute_hash old new is_dict m frozen in
      (kept.1 ∙ version, same.0, λ n. same.1 n ∙ has_types n)

  some_same : (a b : Schema) → ◌≡◌ {A = Option Schema} (some a) (some b) → a ≡ b
  some_same a b h = cc

  evolve_in-IsFrozen :
      (o : Option Schema) (inferred : Schema) (fs : Fields) (p : SchemaProcessor) (v : ℕ)
      → (h : IsFrozen types v p) → o ≡ some h.schema
      → IsFrozen types v (evolve_in compute_hash o inferred fs p).1
  evolve_in-IsFrozen none inferred fs p v h same = ground (arith, same)
  evolve_in-IsFrozen (some s) inferred fs p v h same =
      with_merged-IsFrozen (merge p.contract compute_hash s inferred).0
        (merge p.contract compute_hash s inferred).1 s fs p v h
        (λ m e. merge_version p.contract s inferred m v h.is_freeze current e)
    where
      current : AsBefore types v s
      current =
          subst (λ (o : Schema). AsBefore types v o) (some_same h.schema s (sym same))
            (h.is_version, h.is_dict, h.has_types)

  observed-IsFrozen :
      (p : SchemaProcessor) (v : ℕ) → IsFrozen types v p → IsFrozen types v (observed_record p)
  observed-IsFrozen p v h = record {
    is_freeze = h.is_freeze;
    schema = h.schema;
    is_current = h.is_current;
    is_version = h.is_version;
    is_dict = h.is_dict;
    has_types = h.has_types;
  }

  track-IsFrozen :
      (fs : Fields) (p : SchemaProcessor) (v : ℕ)
      → IsFrozen types v p
      → IsFrozen types v (track compute_hash fs p).1
  track-IsFrozen fs p v h =
      either-IsFrozen (length (record_schema compute_hash p fs).columns == 0) _ _ v
        (observed-IsFrozen p v h)
        (evolve_in-IsFrozen p.current_schema (record_schema compute_hash p fs) fs
          (observed_record p) v (observed-IsFrozen p v h) (observed-IsFrozen p v h).is_current)

  process-IsFrozen :
      (fs : Fields) (p : SchemaProcessor) (v : ℕ)
      → IsFrozen types v p
      → IsFrozen types v (process compute_hash fs p).1
  unfolding process
  process-IsFrozen fs p v h =
      subst (λ o. IsFrozen types v (process_in compute_hash o fs p).1) (sym h.is_current)
        (subst (λ c. IsFrozen types v (process_under compute_hash c h.schema fs p).1)
          (sym h.is_freeze) (track-IsFrozen fs p v h))

  -- Once a schema is loaded under FREEZE, it has the same column names, each with the same type, and
  -- the same version after any list of records, and the contract stays.
  pub process_all-IsFrozen :
      (records : List Fields) (p : SchemaProcessor) (v : ℕ)
      → IsFrozen types v p
      → IsFrozen types v (process_all compute_hash records p)
  process_all-IsFrozen [] p v h = h
  process_all-IsFrozen (fs ∷ rest) p v h =
      process_all-IsFrozen rest (process compute_hash fs p).1 v (process-IsFrozen fs p v h)
