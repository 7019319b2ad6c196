-- ===== src/Schema/Dicts/Tests.antt =====
-- A schema through its dictionary.
use agora_etl.Prelude.{ℕ, ◌+◌, true, false, none, some, [], ◌∷◌, length, ◌≡◌, refl}
use agora_etl.Schema.{Columns, integer, json}
use agora_etl.Schema.Evolution.{Schema}
use agora_etl.Schema.Dicts.{
  loaded, failed, value_error, column_from_dict, parse_type, schema_to_dict, schema_from_dict,
  schema_from_dict-schema_to_dict, type_value,
}

abbrev hash_of : ℕ → Columns → ℕ
hash_of t cs = t + length cs

abbrev two_columns : Schema
two_columns = record {
  table = 7;
  columns =
      (1, record { name = 1; data_type = integer; nullable = true; inferred_from = 3 })
      ∷ (2, record { name = 2; data_type = json; nullable = false; inferred_from = 1 })
      ∷ [];
  version = 4;
  hash = 9;
}

schema_from_dict-schema_to_dict_example :
    schema_from_dict hash_of true (schema_to_dict two_columns) ≡ loaded two_columns
schema_from_dict-schema_to_dict_example =
    schema_from_dict-schema_to_dict hash_of true two_columns refl

unknown_type :
    column_from_dict (record {
      name = some 1;
      data_type = some "decimal";
      nullable = some true;
      inferred_from = none;
    })
    ≡ failed value_error
unfolding column_from_dict parse_type type_value
unknown_type = refl
