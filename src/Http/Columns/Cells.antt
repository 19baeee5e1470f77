-- ===== src/Http/Columns/Cells.antt =====
-- The cells of a column, as `build_batch` makes them (crates/pawrly-sources/http/src/typed.rs).
use pawrly.Prelude.{
  ℕ, ◌*◌, leb, Text, codes, Bool, true, false, Option, none, some, List, [], ◌∷◌, if◌then◌else◌,
  text_eq, to_ascii_lowercase, trim, parse_signed,
}
use pawrly.Http.Json.{Value, null, bool, number, string}
use pawrly.Http.Source.{Crates}
use pawrly.Http.Expr.{◌>>?◌}

pub data Cell : Type 0 where
  null_cell : Cell
  text_cell : Text → Cell
  int_cell time_cell : Bool × ℕ → Cell
  float_cell : ℕ → Cell
  bool_cell : Bool → Cell

-- A cell, or a null one.
abbrev pub cell_of : {A : Type 0} → (A → Cell) → Option A → Cell
cell_of f none = null_cell
cell_of f (some a) = f a

unfoldable pub json_cell : Crates → Option Value → Cell
json_cell C none = null_cell
json_cell C (some null) = null_cell
json_cell C (some v) = text_cell (C.to_json v)

unfoldable pub text_cell_of : Crates → Option Value → Cell
text_cell_of C none = null_cell
text_cell_of C (some null) = null_cell
text_cell_of C (some (string s)) = text_cell s
text_cell_of C (some (number n)) = text_cell n
text_cell_of C (some v) = text_cell (C.to_json v)

-- `as_i64`, and the float as an integer where it is none.
abbrev integer_of : Crates → Text → Option (Bool × ℕ)
integer_of C n = elim (C.as_i64 n) [ some i ↦ some i | none ↦ C.f64_to_i64 n ]

unfoldable pub int64_cell : Crates → Option Value → Cell
unfolding parse_signed
int64_cell C (some (number n)) = cell_of int_cell (integer_of C n)
int64_cell C (some (string s)) = cell_of int_cell (parse_signed 9223372036854775808 s)
int64_cell C _ = null_cell

-- `i32::try_from`
unfoldable pub int32_of : Bool × ℕ → Option (Bool × ℕ)
int32_of (negative, n) =
    if (if negative then leb n 2147483648 else leb n 2147483647) then some (negative, n) else none

unfoldable pub int32_cell : Crates → Option Value → Cell
unfolding parse_signed int32_of
int32_cell C (some (number n)) = cell_of int_cell (integer_of C n >>? int32_of)
int32_cell C (some (string s)) = cell_of int_cell (parse_signed 2147483648 s)
int32_cell C _ = null_cell

unfoldable pub float64_cell : Crates → Option Value → Cell
unfolding trim
float64_cell C (some (number n)) = cell_of float_cell (C.as_f64 n)
float64_cell C (some (string s)) = cell_of float_cell (C.parse_f64 (trim s))
float64_cell C _ = null_cell

unfoldable pub bool_of : Text → Option Bool
unfolding trim to_ascii_lowercase text_eq
bool_of s =
    let t = to_ascii_lowercase (trim s) in
    if text_eq t (codes "true")
    then some true
    else if text_eq t (codes "false")
    then some false
    else none

unfoldable pub boolean_cell : Option Value → Cell
unfolding bool_of
boolean_cell (some (bool b)) = bool_cell b
boolean_cell (some (string s)) = cell_of bool_cell (bool_of s)
boolean_cell _ = null_cell

-- The first format that reads the text.
unfoldable pub first_format : Crates → List Text → Text → Option (Bool × ℕ)
first_format C [] s = none
first_format C (f ∷ fs) s = elim (C.naive_micros f s) [
  | some t ↦ some t
  | none ↦ first_format C fs s
]

-- The microseconds up to the midnight of a day.
abbrev midnight : Bool × ℕ → Option (Bool × ℕ)
midnight (negative, days) = some (negative, days * 86400000000)

unfoldable pub parse_timestamp_micros : Crates → Value → Option (Bool × ℕ)
unfolding first_format
parse_timestamp_micros C (string s) = elim (C.rfc3339_micros s) [
  | some t ↦ some t
  | none ↦
      elim (first_format C
        (codes "%Y-%m-%dT%H:%M:%S%.f"
          ∷ codes "%Y-%m-%d %H:%M:%S%.f"
          ∷ codes "%Y-%m-%dT%H:%M:%S"
          ∷ codes "%Y-%m-%d %H:%M:%S"
          ∷ [])
        s) [ some t ↦ some t | none ↦ C.naive_days s >>? midnight ]
]
parse_timestamp_micros C _ = none

unfoldable pub parse_date32 : Crates → Value → Option (Bool × ℕ)
unfolding int32_of
parse_date32 C (string s) = C.naive_days s >>? int32_of
parse_date32 C _ = none
