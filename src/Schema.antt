-- ===== src/Schema.antt =====
-- schema/types.py and schema/inference.py: the column types, and the type inferred for a column. A
-- Python value is the first of the classes that `infer_python_type` asks for.
pub mod Widening
pub mod Evolution
pub mod Merging
pub mod Lookup
pub mod Freezing
pub mod Processor
pub mod Dicts
mod Tests
use agora_etl.Prelude.{
  ℕ, suc, ◌+◌, Bool, true, false, ◌&&◌, ◌||◌, Option, none, some, List, [], ◌∷◌, ◌==◌,
  if◌then◌else◌,
}

pub data DataType : Type 0 where
  string integer float boolean timestamp json bytes null : DataType

pub data PythonValue : Type 0 where
  none_value : PythonValue
  bool_value int_value float_value str_value bytes_value : PythonValue
  datetime_value date_value dict_value list_value other_value : PythonValue

abbrev pub code : DataType → ℕ
code string = 0
code integer = 1
code float = 2
code boolean = 3
code timestamp = 4
code json = 5
code bytes = 6
code null = 7

abbrev pub same : DataType → DataType → Bool
same a b = code a == code b

unfoldable pub infer_python_type : PythonValue → DataType
infer_python_type none_value = null
infer_python_type bool_value = boolean
infer_python_type int_value = integer
infer_python_type float_value = float
infer_python_type str_value = string
infer_python_type bytes_value = bytes
infer_python_type datetime_value = timestamp
infer_python_type date_value = timestamp
infer_python_type dict_value = json
infer_python_type list_value = json
infer_python_type other_value = string

unfoldable pub can_widen : DataType → DataType → Bool
can_widen from_type to_type =
    if same from_type to_type
    then true
    else if same from_type null
    then true
    else if same from_type integer && same to_type float
    then true
    else same to_type string

-- `SchemaInferrer._widen_column_type` is the same code.
unfoldable pub widen_type : DataType → DataType → DataType
widen_type from_type to_type =
    if same from_type to_type
    then from_type
    else if same from_type null
    then to_type
    else if same to_type null
    then from_type
    else if same from_type integer && same to_type float
    then float
    else if same from_type float && same to_type integer
    then float
    else string

pub record Column : Type 0 where
  pub name : ℕ
  pub data_type : DataType
  pub nullable : Bool
  pub inferred_from : ℕ

-- A dictionary in its insertion order; a key stands once.
abbrev pub Columns : Type 0
Columns = List (ℕ × Column)

abbrev pub get_column : ℕ → Columns → Option Column
get_column n [] = none
get_column n ((m, c) ∷ cs) = let rest = get_column n cs in if n == m then some c else rest

abbrev pub set_column : ℕ → Column → Columns → Columns
set_column n c [] = (n, c) ∷ []
set_column n c ((m, d) ∷ cs) =
    let rest = set_column n c cs in if n == m then (m, c) ∷ cs else (m, d) ∷ rest

abbrev pub Fields : Type 0
Fields = List (ℕ × PythonValue)

abbrev pub is_none : PythonValue → Bool
is_none none_value = true
is_none _ = false

-- A type that equals the column's needs no widening.
abbrev pub observed : PythonValue → Column → Column
observed v c =
    let t = infer_python_type v in
    record c {
      inferred_from = c.inferred_from + 1;
      nullable = if is_none v then true else c.nullable;
      data_type = if same t c.data_type then c.data_type else widen_type c.data_type t;
    }

abbrev pub observe_in : Option Column → ℕ → PythonValue → Columns → Columns
observe_in none n v cs =
    set_column n
      (record { name = n; data_type = infer_python_type v; nullable = true; inferred_from = 1 }) cs
observe_in (some c) n v cs = set_column n (observed v c) cs

unfoldable pub observe_field : ℕ → PythonValue → Columns → Columns
observe_field n v cs = observe_in (get_column n cs) n v cs

-- `SchemaInferrer.observe`, on the fields of a record
unfoldable pub observe : Fields → Columns → Columns
observe [] cs = cs
observe ((n, v) ∷ fs) cs = observe fs (observe_field n v cs)

abbrev pub observe_all : List Fields → Columns → Columns
observe_all [] cs = cs
observe_all (f ∷ fs) cs = observe_all fs (observe f cs)

-- `infer_schema`: the columns
unfoldable pub infer_schema : List Fields → Columns
infer_schema records = observe_all records []
