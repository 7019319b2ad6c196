-- ===== src/Schema/Dicts.antt =====
-- `to_dict` and `from_dict` of schema/types.py. A dictionary is given by its known keys, each of which
-- may be missing; the values have the types that `to_dict` gives them. The log line of a hash that
-- does not match is left out.
mod Tests
use Prim.Native.String.{String}
use text.Mathlib.Text.{◌==◌}
use agora_etl.Prelude.{
  ℕ, Bool, true, false, Option, none, some, List, [], ◌∷◌, if◌then◌else◌, ◌≡◌, refl, sym, ap, arith,
}
use agora_etl.Prelude as P
use agora_etl.Failures.{Result, ok, err}
use agora_etl.Schema.{
  DataType, string, integer, float, boolean, timestamp, json, bytes, null, Column, Columns,
}
use agora_etl.Schema.Evolution.{Schema}

pub data LoadError : Type 0 where
  key_error : String → LoadError
  value_error : LoadError

-- What loading gives.
pub data Loaded (A : Type 0) : Type 0 where
  loaded : A → Loaded A
  failed : LoadError → Loaded A

module _ {A B : Type 0} where
  infixl 5 ◌>>=◌
  abbrev ◌>>=◌ : Loaded A → (A → Loaded B) → Loaded B
  loaded a >>= f = f a
  failed e >>= f = failed e

pub record ColumnDict : Type 0 where
  pub name : Option ℕ
  pub data_type : Option String
  pub nullable : Option Bool
  pub inferred_from : Option ℕ

-- A hash that is empty counts as missing.
pub record SchemaDict : Type 0 where
  pub table : Option ℕ
  pub columns : Option (List (ℕ × ColumnDict))
  pub version : Option ℕ
  pub hash : Option ℕ

-- `DataType.value`
unfoldable pub type_value : DataType → String
type_value string = "string"
type_value integer = "integer"
type_value float = "float"
type_value boolean = "boolean"
type_value timestamp = "timestamp"
type_value json = "json"
type_value bytes = "bytes"
type_value null = "null"

abbrev all_types : List DataType
all_types = string ∷ integer ∷ float ∷ boolean ∷ timestamp ∷ json ∷ bytes ∷ null ∷ []

abbrev type_among : String → List DataType → Loaded DataType
type_among s [] = failed value_error
type_among s (t ∷ ts) = let rest = type_among s ts in if type_value t == s then loaded t else rest

-- `DataType(value)`
unfoldable pub parse_type : String → Loaded DataType
parse_type s = type_among s all_types

module _ {A : Type 0} where
  -- `data[key]` and `data.get(key, default)`
  abbrev required : String → Option A → Loaded A
  required key none = failed (key_error key)
  required key (some a) = loaded a

  abbrev with_default : A → Option A → A
  with_default d none = d
  with_default d (some a) = a

unfoldable pub column_to_dict : Column → ColumnDict
column_to_dict c = record {
  name = some c.name;
  data_type = some (type_value c.data_type);
  nullable = some c.nullable;
  inferred_from = some c.inferred_from;
}

unfoldable pub column_from_dict : ColumnDict → Loaded Column
column_from_dict d = do
  name ← required "name" d.name
  value ← required "data_type" d.data_type
  data_type ← parse_type value
  nullable ← required "nullable" d.nullable
  loaded (record {
    name = name;
    data_type = data_type;
    nullable = nullable;
    inferred_from = with_default 0 d.inferred_from;
  })

unfoldable pub columns_to_dict : Columns → List (ℕ × ColumnDict)
columns_to_dict [] = []
columns_to_dict ((n, c) ∷ cs) = (n, column_to_dict c) ∷ columns_to_dict cs

-- The keys of a dictionary are distinct, so each is a new key of the result.
unfoldable pub columns_from_dict : List (ℕ × ColumnDict) → Loaded Columns
columns_from_dict [] = loaded []
columns_from_dict ((n, d) ∷ ds) = do
  c ← column_from_dict d
  cs ← columns_from_dict ds
  loaded ((n, c) ∷ cs)

unfoldable pub schema_to_dict : Schema → SchemaDict
schema_to_dict s = record {
  table = some s.table;
  columns = some (columns_to_dict s.columns);
  version = some s.version;
  hash = some s.hash;
}

abbrev mismatch : Option ℕ → ℕ → Bool
mismatch none computed = false
mismatch (some stored) computed = if P.◌==◌ stored computed then false else true

module _ (compute_hash : ℕ → Columns → ℕ) where
  -- `__post_init__` computes the hash.
  abbrev new_schema : ℕ → Columns → ℕ → Schema
  new_schema t cs v = record { table = t; columns = cs; version = v; hash = compute_hash t cs }

  unfoldable pub schema_from_dict : Bool → SchemaDict → Loaded Schema
  schema_from_dict strict_hash d = do
    raw_columns ← required "columns" d.columns
    columns ← columns_from_dict raw_columns
    table ← required "table" d.table
    if mismatch d.hash (compute_hash table columns)
        then (if strict_hash
            then failed value_error
            else loaded (new_schema table columns (with_default 1 d.version)))
        else loaded (new_schema table columns (with_default 1 d.version))

parse_type-type_value : (t : DataType) → parse_type (type_value t) ≡ loaded t
unfolding parse_type type_value
parse_type-type_value string = refl
parse_type-type_value integer = refl
parse_type-type_value float = refl
parse_type-type_value boolean = refl
parse_type-type_value timestamp = refl
parse_type-type_value json = refl
parse_type-type_value bytes = refl
parse_type-type_value null = refl

column_round_trip : (c : Column) → column_from_dict (column_to_dict c) ≡ loaded c
unfolding column_from_dict column_to_dict
column_round_trip c = simp (parse_type-type_value c.data_type) refl

columns_round_trip : (cs : Columns) → columns_from_dict (columns_to_dict cs) ≡ loaded cs
unfolding columns_from_dict columns_to_dict
columns_round_trip [] = refl
columns_round_trip ((n, c) ∷ cs) = simp (column_round_trip c, columns_round_trip cs) refl

same_hash : (m n : ℕ) → m ≡ n → mismatch (some m) n ≡ false
same_hash m n h = ground (arith, h)

-- A schema whose hash is the one of its content, as of every schema that was constructed, is loaded
-- from its dictionary as it was, also under `strict_hash`.
pub schema_from_dict-schema_to_dict :
    (compute_hash : ℕ → Columns → ℕ) (strict_hash : Bool) (s : Schema)
    → s.hash ≡ compute_hash s.table s.columns
    → schema_from_dict compute_hash strict_hash (schema_to_dict s) ≡ loaded s
unfolding schema_from_dict schema_to_dict
schema_from_dict-schema_to_dict compute_hash strict_hash s hashed =
    simp (columns_round_trip s.columns, same_hash s.hash _ hashed)
      (ap (λ h. loaded (record s { hash = h })) (sym hashed))
