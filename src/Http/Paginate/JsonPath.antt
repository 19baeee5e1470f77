-- ===== src/Http/Paginate/JsonPath.antt =====
-- Paths `$.a.b[0]` into JSON values (crates/pawrly-sources/http/src/paginate.rs).
pub mod Laws
use pawrly.Prelude.{
  ℕ, zero, suc, ◌==◌, Text, codes, Bool, true, false, ◌&&◌, not, Option, none, some, List, [], ◌∷◌,
  length, retain, is_empty, if◌then◌else◌, text_eq, trim, trim_start_matches, split, cut_at,
  parse_unsigned,
}
use pawrly.Http.Json.{
  Value, number, string, object, Fields, end, get_key, get_index, is_array, field_of, insert_field,
}

-- `trim_start_matches("$.")`.
unfoldable pub trim_dollar_dots : Text → Text
trim_dollar_dots [] = []
trim_dollar_dots (c ∷ []) = c ∷ []
trim_dollar_dots (c ∷ d ∷ s) = elim (c == b'$' && d == b'.') [
  | true ↦ trim_dollar_dots s
  | false ↦ c ∷ d ∷ s
]

-- The names of a path, between its dots.
unfoldable pub parts_of : Text → List Text
unfolding trim_dollar_dots trim_start_matches split
parts_of path =
    retain (λ p. not (is_empty p))
      (split b'.' (trim_start_matches (λ c. c == b'$') (trim_dollar_dots path)))

-- `entry(key).or_insert_with(|| {})`
abbrev pub entry_or_object : Text → Fields → Value
entry_or_object k fs = elim (field_of k fs) [ none ↦ object end | some v ↦ v ]

-- The walk along the names, with what stands at each on the way back; the flag says whether nothing
-- blocked it. A walk that is blocked leaves the objects that it made.
unfoldable pub set_at : List Text → Value → Value → Bool × Value
unfolding insert_field field_of
set_at [] leaf v = (true, leaf)
set_at (p ∷ ps) leaf (object fs) =
    let (done, w) = set_at ps leaf (entry_or_object p fs) in (done, object (insert_field p w fs))
set_at (p ∷ ps) leaf v = (false, v)

unfoldable pub set_json_at_path : Value → Text → Value → Bool × Value
unfolding parts_of set_at
set_json_at_path root path leaf = set_at (parts_of path) leaf root

-- `parse::<usize>()`.
abbrev parse_usize : Text → Option ℕ
parse_usize s = parse_unsigned 18446744073709551616 s

unfoldable pub get_key_or_index : Value → Text → Option Value
unfolding get_key get_index
get_key_or_index value key = elim (get_key value key) [
  | some v ↦ some v
  | none ↦ elim (if is_array value then parse_usize key else none) [
    | some idx ↦ get_index value idx
    | none ↦ none
  ]
]

-- The brackets after a key. The rounds are the characters left, of which each bracket takes some.
unfoldable pub indices_within : ℕ → Value → Text → Option Value
unfolding get_index cut_at
indices_within zero current rest = some current
indices_within (suc rounds) current [] = some current
indices_within (suc rounds) current (c ∷ stripped) =
    if c == b'['
    then (let (digits, from) = cut_at b']' stripped in
        elim from [
          | [] ↦ none
          | d ∷ rest ↦ elim (parse_usize (trim digits)) [
            | none ↦ none
            | some idx ↦ elim (get_index current idx) [
              | none ↦ none
              | some v ↦ indices_within rounds v rest
            ]
          ]
        ])
    else some current

unfoldable pub segment_get : Value → Text → Option Value
unfolding get_key_or_index indices_within cut_at
segment_get value segment =
    let (key, rest) = cut_at b'[' segment in
    elim (if is_empty key then some value else get_key_or_index value key) [
      | none ↦ none
      | some current ↦ indices_within (length rest) current rest
    ]

unfoldable pub walk_parts : List Text → Value → Option Value
unfolding segment_get
walk_parts [] current = some current
walk_parts (p ∷ ps) current = elim (if is_empty p then some current else segment_get current p) [
  | none ↦ none
  | some v ↦ walk_parts ps v
]

unfoldable pub json_at_path : Value → Text → Option Value
unfolding walk_parts trim_dollar_dots trim_start_matches split
json_at_path body path =
    if text_eq path (codes "$")
    then some body
    else walk_parts (split b'.' (trim_start_matches (λ c. c == b'$') (trim_dollar_dots path))) body

unfoldable pub value_to_cursor : Value → Option Text
value_to_cursor (string s) = if is_empty s then none else some s
value_to_cursor (number n) = some n
value_to_cursor _ = none

unfoldable pub cursor_at_path : Value → Text → Option Text
unfolding json_at_path value_to_cursor
cursor_at_path body path = elim (json_at_path body path) [
  | none ↦ none
  | some v ↦ value_to_cursor v
]
