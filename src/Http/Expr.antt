-- ===== src/Http/Expr.antt =====
-- Computed columns: `ColumnExpr` and its evaluation (crates/pawrly-sources/http/src/expr.rs).
use pawrly.Prelude.{
  Text, codes, Bool, ◌||◌, Option, none, some, List, [], ◌∷◌, map, retain, find, if◌then◌else◌,
  option_eq, text_eq, trim, replace, join_texts, get,
}
use pawrly.Http.Json.{Value, null, number, string, get_key, as_array, as_str, is_null}
use pawrly.Http.Source.{Crates}
use pawrly.Http.Paginate.Next.{Params}

mutual
  pub data ColumnExpr : Type 0 where
    path_expr : List Text → ColumnExpr
    current_row : ColumnExpr
    null_expr : ColumnExpr
    from_filter : Text → ColumnExpr
    coalesce : ColumnExprs → ColumnExpr
    to_timestamp : (unit : Text) → ColumnExpr → ColumnExpr
    join : List Text → ColumnExpr
    map_join : (path item_path : List Text) → ColumnExpr
    first_of : (path item_path : List Text) → ColumnExpr
    lookup : (path : List Text) → (key key_field value_field : Text) → ColumnExpr
    lookup_join : (path : List Text) → (key key_field value_field : Text) → ColumnExpr
    pick : (path : List Text) → (by : Text) → (item_path : List Text) → ColumnExpr
    literal : Value → ColumnExpr
    if_present : ColumnExpr → Value → ColumnExpr
    from_base64 : ColumnExpr → ColumnExpr
    replace_expr : ColumnExpr → (from to : Text) → ColumnExpr

  pub data ColumnExprs : Type 0 where
    no_exprs : ColumnExprs
    also : ColumnExpr → ColumnExprs → ColumnExprs

-- The `?` operator on options.
infixl 10 ◌>>?◌
abbrev pub ◌>>?◌ : {A B : Type 0} → Option A → (A → Option B) → Option B
none >>? f = none
some a >>? f = f a

unfoldable pub walk : Value → List Text → Option Value
unfolding get_key
walk current [] = some current
walk current (seg ∷ path) = elim (get_key current seg) [ none ↦ none | some v ↦ walk v path ]

unfoldable pub value_to_text : (Value → Text) → Value → Text
value_to_text to_json (string s) = s
value_to_text to_json null = []
value_to_text to_json v = to_json v

unfoldable pub join_values : (Value → Text) → List Value → Text
unfolding value_to_text join_texts
join_values to_json vs = join_texts (codes ",") (map (value_to_text to_json) vs)

-- `filter_map`
unfoldable pub filter_map : (Value → Option Value) → List Value → List Value
filter_map f [] = []
filter_map f (v ∷ vs) = let rest = filter_map f vs in elim (f v) [ none ↦ rest | some w ↦ w ∷ rest ]

unfoldable pub to_rfc3339 : (C : Crates) → Value → Text → Option Text
unfolding text_eq
to_rfc3339 C (string s) unit = some s
to_rfc3339 C (number n) unit =
    C.rfc3339 n (text_eq unit (codes "millis") || text_eq unit (codes "milliseconds"))
to_rfc3339 C _ unit = none

-- Whether the text under a field is the key.
unfoldable pub has_field : (key_field key : Text) → Value → Bool
unfolding get_key text_eq
has_field key_field key el = option_eq text_eq (get_key el key_field >>? as_str) (some key)

-- The array at a path.
abbrev pub array_at : Value → List Text → Option (List Value)
array_at row path = walk row path >>? as_array

abbrev first : List Value → Option Value
first [] = none
first (v ∷ vs) = some v

-- A value that is not null.
abbrev pub present : Option Value → Option Value
present none = none
present (some v) = if is_null v then none else some v

unfoldable mutual
  unfolding walk join_values filter_map to_rfc3339 has_field get_key get trim replace

  pub eval : (C : Crates) → ColumnExpr → Value → Params → Option Value
  eval C (path_expr path) row params = walk row path
  eval C current_row row params = some row
  eval C null_expr row params = none
  eval C (from_filter filter) row params = get filter params >>? (λ v. some (string v))
  eval C (coalesce exprs) row params = first_present C exprs row params
  eval C (to_timestamp unit e) row params =
      eval C e row params >>? (λ v. to_rfc3339 C v unit >>? (λ t. some (string t)))
  eval C (join path) row params =
      array_at row path >>? (λ arr. some (string (join_values C.to_json arr)))
  eval C (map_join path item_path) row params =
      array_at row path
      >>? (λ arr. some (string (join_values C.to_json (filter_map (λ el. walk el item_path) arr))))
  eval C (first_of path item_path) row params =
      array_at row path >>? (λ arr. first arr >>? (λ el. walk el item_path))
  eval C (lookup path key key_field value_field) row params =
      array_at row path
      >>? (λ arr. find (has_field key_field key) arr >>? (λ el. get_key el value_field))
  eval C (lookup_join path key key_field value_field) row params = array_at row path >>? (λ arr.
      some (
        string (
          join_values C.to_json
            (filter_map (λ el. get_key el value_field) (retain (has_field key_field key) arr)))))
  eval C (pick path by item_path) row params =
      walk row path
      >>? (λ obj. get by params >>? (λ key. get_key obj key >>? (λ v. walk v item_path)))
  eval C (literal v) row params = some v
  eval C (if_present check then_value) row params =
      present (eval C check row params) >>? (λ _. some then_value)
  eval C (from_base64 e) row params =
      eval C e row params
      >>? (λ v. as_str v >>? (λ s. C.base64_text (trim s) >>? (λ t. some (string t))))
  eval C (replace_expr e from to) row params =
      eval C e row params >>? (λ v. as_str v >>? (λ s. some (string (replace from to s))))

  -- The first value that is not null.
  pub first_present : (C : Crates) → ColumnExprs → Value → Params → Option Value
  first_present C no_exprs row params = none
  first_present C (also e es) row params = elim (present (eval C e row params)) [
    | some v ↦ some v
    | none ↦ first_present C es row params
  ]
