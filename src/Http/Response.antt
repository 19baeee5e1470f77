-- ===== src/Http/Response.antt =====
-- Status matchers, the detection of errors and the rows of a response: `match_status_expr` of
-- crates/pawrly-sources/http/src/source.rs, and `detect_error`, `extract_rows` and the reshapes of
-- crates/pawrly-sources/http/src/typed.rs.
use pawrly.Prelude.{
  ℕ, ◌+◌, ◌*◌, ◌%◌, ◌==◌, ltb, leb, Text, codes, Bool, true, false, ◌&&◌, Option, none, some, List,
  [], ◌∷◌, ◌++◌, is_empty, any, if◌then◌else◌, Result, ok, err, trim, strip_prefix, decimal,
  parse_unsigned,
}
use pawrly.Http.Json.{
  Value, null, string, array, object, Fields, end, field, to_list, get_key, as_array, insert_field,
  remove_field,
}
use pawrly.Http.Paginate.JsonPath.{json_at_path}
use pawrly.Http.Table.{
  StatusMatcher, exact_code, status_expr, ResponseErrorSpec, dict_entries, series_points,
  ResponseSpec,
}

-- `parse::<u16>()`
abbrev parse_u16 : Text → Option ℕ
parse_u16 s = parse_unsigned 65536 s

-- The test that one operator makes of a code, and the code after it.
abbrev compare_code : (ℕ → ℕ → Bool) → ℕ → Text → Bool
compare_code test status rest = elim (parse_u16 (trim rest)) [
  | none ↦ false
  | some code ↦ test status code
]

-- The operators in the order in which they are tried.
abbrev operators : List (Text × (ℕ → ℕ → Bool))
operators =
    (codes ">=", λ s c. leb c s)
    ∷ (codes "<=", λ s c. leb s c)
    ∷ (codes ">", λ s c. ltb c s)
    ∷ (codes "<", λ s c. ltb s c)
    ∷ (codes "==", λ s c. s == c)
    ∷ (codes "=", λ s c. s == c)
    ∷ []

unfoldable pub first_operator : List (Text × (ℕ → ℕ → Bool)) → Text → ℕ → Option Bool
unfolding strip_prefix trim parse_unsigned
first_operator [] e status = none
first_operator ((op, test) ∷ ops) e status = elim (strip_prefix op e) [
  | some rest ↦ some (compare_code test status rest)
  | none ↦ first_operator ops e status
]

-- `strip_suffix("xx")`
unfoldable pub strip_xx : Text → Option Text
strip_xx [] = none
strip_xx (c ∷ []) = none
strip_xx (c ∷ d ∷ s) = elim (is_empty s && c == b'x' && d == b'x') [
  | true ↦ some []
  | false ↦ elim (strip_xx (d ∷ s)) [ none ↦ none | some t ↦ some (c ∷ t) ]
]

-- The products and sums are those of `u16`.
unfoldable pub match_status_expr : Text → ℕ → Bool
unfolding first_operator strip_xx trim parse_unsigned
match_status_expr text status =
    let e = trim text in
    elim (strip_xx e) [
      | some prefix ↦ elim (parse_u16 prefix) [
        | none ↦ false
        | some hundreds ↦
            let base = hundreds * 100 % 65536 in
            leb base status && ltb status ((base + 100) % 65536)
      ]
      | none ↦ elim (first_operator operators e status) [
        | some b ↦ b
        | none ↦ elim (parse_u16 e) [ none ↦ false | some c ↦ c == status ]
      ]
    ]

unfoldable pub matches : StatusMatcher → ℕ → Bool
unfolding match_status_expr
matches (exact_code c) status = c == status
matches (status_expr e) status = match_status_expr e status

-- The message at the path, where there is one.
unfoldable pub message_of : (Value → Text) → Value → Option Text
message_of to_json null = none
message_of to_json (string s) = if is_empty s then none else some s
message_of to_json v = some (to_json v)

unfoldable pub path_message : (Value → Text) → Option Text → Value → Option Text
unfolding message_of json_at_path
path_message to_json none body = none
path_message to_json (some p) body = elim (json_at_path body p) [
  | none ↦ none
  | some v ↦ message_of to_json v
]

unfoldable pub detect_error : (Value → Text) → ResponseErrorSpec → ℕ → Value → Option Text
unfolding path_message matches
detect_error to_json spec status body = elim (path_message to_json spec.path body) [
  | some msg ↦ some msg
  | none ↦
      if any (λ m. matches m status) spec.status
      then some (codes "HTTP " ++ decimal status)
      else none
]

unfoldable pub entry_row : Text → Value → Value
unfolding insert_field
entry_row k (object fs) = object (insert_field (codes "_key") (string k) fs)
entry_row k v = object (field (codes "_key") (string k) (field (codes "_value") v end))

unfoldable pub entry_rows : Fields → List Value
unfolding entry_row
entry_rows end = []
entry_rows (field k v fs) = entry_row k v ∷ entry_rows fs

unfoldable pub reshape_dict_entries : Value → List Value
unfolding entry_rows
reshape_dict_entries (object fs) = entry_rows fs
reshape_dict_entries _ = []

-- The row of one point of a series.
unfoldable pub point_row : (points timestamp value : Text) → Value → Value → Value → Value
unfolding insert_field remove_field
point_row points timestamp value t v (object fs) =
    object (insert_field value v (insert_field timestamp t (remove_field points fs)))
point_row points timestamp value t v s = s

unfoldable pub point_rows : (points timestamp value : Text) → Value → List Value → List Value
unfolding point_row
point_rows points timestamp value s [] = []
point_rows points timestamp value s (pt ∷ pts) =
    let rest = point_rows points timestamp value s pts in
    elim (as_array pt) [
      | some (t ∷ v ∷ _) ↦ point_row points timestamp value t v s ∷ rest
      | _ ↦ rest
    ]

unfoldable pub series_rows : (points timestamp value : Text) → List Value → List Value
unfolding point_rows get_key
series_rows points timestamp value [] = []
series_rows points timestamp value (s ∷ ss) =
    let rest = series_rows points timestamp value ss in
    elim (get_key s points) [
      | none ↦ rest
      | some ps ↦ elim (as_array ps) [
        | none ↦ rest
        | some pts ↦ point_rows points timestamp value s pts ++ rest
      ]
    ]

unfoldable pub reshape_series_points : Value → (series points timestamp value : Text) → List Value
unfolding series_rows get_key
reshape_series_points v series points timestamp value = elim (get_key v series) [
  | none ↦ []
  | some arr ↦ elim (as_array arr) [ none ↦ [] | some ss ↦ series_rows points timestamp value ss ]
]

-- `as_array` of the source; the error is that of a scalar.
unfoldable pub rows_at : Value → Result (List Value) Value
rows_at (array vs) = ok (to_list vs)
rows_at (object fs) = ok (object fs ∷ [])
rows_at null = ok []
rows_at v = err v

unfoldable pub extract_rows : Value → ResponseSpec → Result (List Value) Value
unfolding json_at_path rows_at reshape_dict_entries reshape_series_points
extract_rows body spec = elim (json_at_path body spec.path) [
  | none ↦ ok []
  | some v ↦ elim spec.reshape [
    | none ↦ rows_at v
    | some dict_entries ↦ ok (reshape_dict_entries v)
    | some (series_points series points timestamp value) ↦
        ok (reshape_series_points v series points timestamp value)
  ]
]
