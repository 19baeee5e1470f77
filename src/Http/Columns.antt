-- ===== src/Http/Columns.antt =====
-- The columns of a batch: `effective_columns`, `schema_for` and `parse_arrow_type`
-- (crates/pawrly-sources/http/src/source.rs), and `pull_value` and `build_batch` (typed.rs beside it).
pub mod Cells
pub mod Laws
use pawrly.Prelude.{
  ◌+◌, ◌==◌, Text, codes, Bool, true, false, ◌&&◌, not, Option, none, some, List, [], ◌∷◌, ◌++◌,
  map, any, is_empty, if◌then◌else◌, text_eq, to_ascii_lowercase, eq_ignore_ascii_case, split, get,
}
use pawrly.Http.Json.{Value, string, get_key}
use pawrly.Http.Source.{Crates}
use pawrly.Http.Table.{ParamSpec, ResponseColumn, HttpTableSpec}
use pawrly.Http.Expr.{eval, ◌>>?◌}
use pawrly.Http.Paginate.JsonPath.{trim_dollar_dots}
use pawrly.Http.Paginate.Next.{Params}
use pawrly.Http.Columns.Cells.{
  Cell, null_cell, int_cell, time_cell, cell_of, json_cell, text_cell_of, int64_cell, int32_cell,
  float64_cell, boolean_cell, parse_timestamp_micros, parse_date32,
}

-- The types of the crate arrow that are used. A timestamp is in UTC or has no time zone.
pub data DataType : Type 0 where
  boolean_type int32_type int64_type float32_type float64_type date32_type utf8_type : DataType
  timestamp_type : (utc : Bool) → DataType

-- The names of the types, in lower case.
abbrev type_names : List (Text × DataType)
type_names =
    (codes "bool", boolean_type)
    ∷ (codes "boolean", boolean_type)
    ∷ (codes "int", int32_type)
    ∷ (codes "int32", int32_type)
    ∷ (codes "bigint", int64_type)
    ∷ (codes "int64", int64_type)
    ∷ (codes "long", int64_type)
    ∷ (codes "float", float32_type)
    ∷ (codes "float32", float32_type)
    ∷ (codes "double", float64_type)
    ∷ (codes "float64", float64_type)
    ∷ (codes "date", date32_type)
    ∷ (codes "timestamp", timestamp_type false)
    ∷ (codes "timestamptz", timestamp_type true)
    ∷ []

abbrev or_utf8 : Option DataType → DataType
or_utf8 none = utf8_type
or_utf8 (some t) = t

unfoldable pub parse_arrow_type : Text → DataType
unfolding get to_ascii_lowercase
parse_arrow_type s = or_utf8 (get (to_ascii_lowercase s) type_names)

-- The columns for the parameters that may be filtered on and that no declared column names.
unfoldable pub param_columns : List ResponseColumn → List ParamSpec → List ResponseColumn
unfolding text_eq
param_columns declared [] = []
param_columns declared (p ∷ ps) =
    let rest = param_columns declared ps in
    if p.filterable && not (any (λ c. text_eq c.name p.name) declared)
    then record {
      name = p.name;
      column_type = p.param_type;
      source = some (codes "param");
      expr = none;
    }
      ∷ rest
    else rest

unfoldable pub effective_columns : HttpTableSpec → List ResponseColumn
unfolding param_columns
effective_columns table = table.response.schema ++ param_columns table.response.schema table.params

-- The names and the types of the columns.
unfoldable pub schema_for : HttpTableSpec → List (Text × DataType)
unfolding effective_columns parse_arrow_type
schema_for table = map (λ c. (c.name, parse_arrow_type c.column_type)) (effective_columns table)

-- The fields of a path are walked by `Value::get`; empty ones are passed over.
unfoldable pub walk_fields : List Text → Value → Option Value
unfolding get_key
walk_fields [] current = some current
walk_fields (part ∷ parts) current =
    if is_empty part
    then walk_fields parts current
    else elim (get_key current part) [ none ↦ none | some v ↦ walk_fields parts v ]

-- A declared source that is no parameter.
unfoldable pub pull_path : Text → Value → Option Value
unfolding walk_fields get_key trim_dollar_dots split
pull_path [] row = get_key row []
pull_path (c ∷ path) row =
    if c == b'$'
    then if is_empty path
      then some row
      else walk_fields (split b'.' (trim_dollar_dots (c ∷ path))) row
    else get_key row (c ∷ path)

unfoldable pub pull_value : (C : Crates) → Value → ResponseColumn → Params → Option Value
unfolding eval pull_path get_key get
pull_value C row col params = elim col.expr [
  | some e ↦ eval C e row params
  | none ↦ elim col.source [
    | none ↦ get_key row col.name
    | some path ↦
        if text_eq path (codes "param")
        then get col.name params >>? (λ v. some (string v))
        else pull_path path row
  ]
]

pub record Array : Type 0 where
  pub data_type : DataType
  pub cells : List Cell

-- The array for the type of a field; a field of a type that no builder is written for gets a text array
-- of nulls.
unfoldable pub typed_array : Crates → DataType → List (Option Value) → Array
unfolding text_cell_of int64_cell int32_cell float64_cell boolean_cell parse_timestamp_micros
    parse_date32
typed_array C utf8_type vs = record { data_type = utf8_type; cells = map (text_cell_of C) vs }
typed_array C int64_type vs = record { data_type = int64_type; cells = map (int64_cell C) vs }
typed_array C int32_type vs = record { data_type = int32_type; cells = map (int32_cell C) vs }
typed_array C float64_type vs = record { data_type = float64_type; cells = map (float64_cell C) vs }
typed_array C boolean_type vs = record { data_type = boolean_type; cells = map boolean_cell vs }
typed_array C (timestamp_type utc) vs = record {
  data_type = timestamp_type utc;
  cells = map (λ v. cell_of time_cell (v >>? parse_timestamp_micros C)) vs;
}
typed_array C date32_type vs = record {
  data_type = date32_type;
  cells = map (λ v. cell_of int_cell (v >>? parse_date32 C)) vs;
}
typed_array C float32_type vs = record { data_type = utf8_type; cells = map (λ v. null_cell) vs }

unfoldable pub column_array :
    (C : Crates) → List (Text × DataType) → List Value → Params → ResponseColumn → Array
unfolding pull_value json_cell typed_array to_ascii_lowercase get
column_array C schema rows params col =
    let vs = map (λ row. pull_value C row col params) rows in
    if eq_ignore_ascii_case col.column_type (codes "json")
    then record { data_type = utf8_type; cells = map (json_cell C) vs }
    else elim (get col.name schema) [
      | some t ↦ typed_array C t vs
      | none ↦ record { data_type = utf8_type; cells = map (λ v. null_cell) vs }
    ]

-- The arrays that are given to `RecordBatch::try_new`.
unfoldable pub batch_arrays :
    (C : Crates) → List (Text × DataType) → List ResponseColumn → List Value → Params → List Array
unfolding column_array
batch_arrays C schema columns rows params = map (column_array C schema rows params) columns
