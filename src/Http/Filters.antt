-- ===== src/Http/Filters.antt =====
-- The filters of a query: `extract_cmp`, `extract_in_list`, `can_push_down` and `is_path_param`
-- (crates/pawrly-sources/http/src/typed.rs), on the expressions of the crate datafusion that they tell
-- apart.
use pawrly.Prelude.{
  ℕ, Text, codes, Bool, true, false, ◌&&◌, ◌||◌, not, Option, none, some, List, [], ◌∷◌, ◌++◌,
  length, any, find, if◌then◌else◌, text_eq, decimal, has_key, get, contains, ltb,
}
use pawrly.Http.Table.{ParamSpec, HttpTableSpec}
use pawrly.Http.Body.{placeholder}

-- A signed number is its sign with its size.
pub data ScalarValue : Type 0 where
  utf8 large_utf8 : Option Text → ScalarValue
  int32 int64 : Option (Bool × ℕ) → ScalarValue
  uint64 : Option ℕ → ScalarValue
  boolean : Option Bool → ScalarValue
  other_scalar : ScalarValue

pub data Operator : Type 0 where
  eq gt lt gt_eq lt_eq or_op other_op : Operator

mutual
  pub data Expr : Type 0 where
    column : Text → Expr
    literal : ScalarValue → Expr
    binary : Expr → Operator → Expr → Expr
    in_list : Expr → Exprs → (negated : Bool) → Expr
    other_expr : Expr

  pub data Exprs : Type 0 where
    no_exprs : Exprs
    expr_cons : Expr → Exprs → Exprs

abbrev signed : Bool × ℕ → Text
signed (negative, n) = if negative then codes "-" ++ decimal n else decimal n

abbrev bool_text : Bool → Text
bool_text b = if b then codes "true" else codes "false"

unfoldable pub scalar_to_string : ScalarValue → Option Text
unfolding decimal
scalar_to_string (utf8 (some s)) = some s
scalar_to_string (large_utf8 (some s)) = some s
scalar_to_string (int32 (some n)) = some (signed n)
scalar_to_string (int64 (some n)) = some (signed n)
scalar_to_string (uint64 (some n)) = some (decimal n)
scalar_to_string (boolean (some b)) = some (bool_text b)
scalar_to_string _ = none

-- A column and a literal, and whether the literal stands first.
unfoldable pub sides : Expr → Expr → Option (Text × ScalarValue × Bool)
sides (column c) (literal s) = some (c, s, false)
sides (literal s) (column c) = some (c, s, true)
sides _ _ = none

-- The token that reads "column op value".
unfoldable pub token : Operator → (flipped : Bool) → Option Text
token eq _ = some (codes "=")
token gt false = some (codes ">")
token lt true = some (codes ">")
token lt false = some (codes "<")
token gt true = some (codes "<")
token gt_eq false = some (codes ">=")
token lt_eq true = some (codes ">=")
token lt_eq false = some (codes "<=")
token gt_eq true = some (codes "<=")
token _ _ = none

unfoldable pub extract_cmp : Expr → Option (Text × Text × Text)
unfolding sides token scalar_to_string
extract_cmp (binary left op right) = elim (sides left right) [
  | none ↦ none
  | some (col, scalar, flipped) ↦ elim (token op flipped) [
    | none ↦ none
    | some t ↦ elim (scalar_to_string scalar) [ none ↦ none | some v ↦ some (col, t, v) ]
  ]
]
extract_cmp _ = none

-- The column and the values that a walk has met.
abbrev pub Met : Type 0
Met = Option Text × List Text

-- One equality `col = literal` of the walk.
unfoldable pub meet : Option (Text × ScalarValue × Bool) → Met → Bool × Met
unfolding scalar_to_string
meet none met = (false, met)
meet (some (c, scalar, _)) (col, vals) =
    if (elim col [ none ↦ false | some existing ↦ not (text_eq existing c) ])
    then (false, (col, vals))
    else elim (scalar_to_string scalar) [
      | none ↦ (false, (some c, vals))
      | some v ↦ (true, (some c, vals ++ v ∷ []))
    ]

unfoldable pub collect_or_equalities : Expr → Met → Bool × Met
unfolding meet sides
collect_or_equalities (binary left or_op right) met =
    let (ok_left, met') = collect_or_equalities left met in
    let (ok_right, met'') = collect_or_equalities right met' in
    if ok_left then (ok_right, met'') else (false, met')
collect_or_equalities (binary left eq right) met = meet (sides left right) met
collect_or_equalities _ met = (false, met)

-- The values of a list of literals.
unfoldable pub literals : Exprs → Option (List Text)
unfolding scalar_to_string
literals no_exprs = some []
literals (expr_cons (literal s) es) = elim (scalar_to_string s) [
  | none ↦ none
  | some v ↦ elim (literals es) [ none ↦ none | some vs ↦ some (v ∷ vs) ]
]
literals (expr_cons _ es) = none

-- What a finished walk found: at least two values of one column.
unfoldable pub found : Bool × Met → Option (Text × List Text)
found (false, met) = none
found (true, (none, vals)) = none
found (true, (some c, vals)) = if ltb (length vals) 2 then none else some (c, vals)

unfoldable pub extract_in_list : Expr → Option (Text × List Text)
unfolding literals collect_or_equalities found
extract_in_list (in_list (column c) es false) = elim (literals es) [
  | none ↦ none
  | some vs ↦ some (c, vs)
]
extract_in_list (binary left op right) =
    found (collect_or_equalities (binary left op right) (none, []))
extract_in_list _ = none

unfoldable pub is_path_param : HttpTableSpec → Text → Bool
unfolding contains
is_path_param spec name =
    contains (placeholder name) spec.endpoint
    || any (λ r. contains (placeholder name) r.endpoint) spec.requests

-- The first parameter of a name.
abbrev pub param_of : HttpTableSpec → Text → Option ParamSpec
param_of spec col = find (λ p. text_eq p.name col) spec.params

unfoldable pub pushes_cmp : HttpTableSpec → Option (Text × Text × Text) → Bool
unfolding get
pushes_cmp spec none = false
pushes_cmp spec (some (col, op, _)) = elim (param_of spec col) [
  | none ↦ false
  | some param ↦
      text_eq op (codes "=") || (any (λ a. text_eq a op) param.accepts && has_key op param.emit)
]

unfoldable pub can_push_down : HttpTableSpec → Expr → Bool
unfolding extract_in_list extract_cmp is_path_param pushes_cmp
can_push_down spec e = elim (extract_in_list e) [
  | some (col, _) ↦
      any (λ p. text_eq p.name col && (p.explode || p.required || is_path_param spec col))
        spec.params
  | none ↦ pushes_cmp spec (extract_cmp e)
]
