-- ===== src/Http/Paginate/Next.antt =====
-- `PaginationConfig`, `seed_initial` and `next_page` (crates/pawrly-sources/http/src/paginate.rs).
use Prim.Native.Nat.{min}
use pawrly.Prelude.{
  ℕ, ◌+◌, ◌*◌, ◌%◌, ltb, Text, codes, Bool, true, false, not, Option, none, some, List, [], ◌∷◌,
  length, is_empty, if◌then◌else◌, option_eq, text_eq, get, put, has_key, decimal,
}
use pawrly.Http.Json.{Value, as_bool, get_key}
use pawrly.Http.Paginate.JsonPath.{json_at_path, cursor_at_path, value_to_cursor}
use pawrly.Http.Paginate.Link.{parse_link_next}

-- The query parameters, a `BTreeMap`.
abbrev pub Params : Type 0
Params = List (Text × Text)

pub data PaginationConfig : Type 0 where
  link_header : PaginationConfig
  cursor : (next_path param : Text) → PaginationConfig
  row_cursor : (param field : Text) → (more_path : Option Text) → PaginationConfig
  page :
      (param : Text)
      → (start : ℕ) → (size_param : Option Text) → (size : Option ℕ) → PaginationConfig
  offset : (param size_param : Text) → (size : ℕ) → PaginationConfig
  body_cursor : (cursor_path next_path : Text) → PaginationConfig

pub data NextPage : Type 0 where
  params : Params → NextPage
  url : Text → NextPage
  body_cursor_at : Text → NextPage

-- `entry(k).or_insert(v)`
unfoldable pub or_insert : Text → Text → Params → Params
unfolding put
or_insert k v m = if has_key k m then m else put k v m

unfoldable pub seed_initial : PaginationConfig → Params → Params
unfolding or_insert
seed_initial (page param start (some sp) (some sz)) m =
    or_insert sp (decimal sz) (or_insert param (decimal start) m)
seed_initial (page param start _ _) m = or_insert param (decimal start) m
seed_initial (offset param size_param size) m =
    or_insert size_param (decimal size) (or_insert param (codes "0") m)
seed_initial _ m = m

-- The largest `u32` and `u64`, at which the sums and products below stop.
abbrev pub u32_max : ℕ
u32_max = 4294967295

abbrev pub u64_max : ℕ
u64_max = 18446744073709551615

unfoldable pub next_cursor : Text → Params → Option Text → Option NextPage
next_cursor param m none = none
next_cursor param m (some c) =
    if option_eq text_eq (get param m) (some c) then none else some (params (put param c m))

unfoldable pub last : List Value → Option Value
last [] = none
last (r ∷ []) = some r
last (r ∷ s ∷ rows) = last (s ∷ rows)

unfoldable pub next_row_cursor : Text → Text → Params → Option Value → Option NextPage
next_row_cursor param field m none = none
next_row_cursor param field m (some row) = elim (get_key row field) [
  | none ↦ none
  | some v ↦ elim (value_to_cursor v) [ none ↦ none | some c ↦ some (params (put param c m)) ]
]

-- Whether the guard before a row cursor lets the walk go on.
unfoldable pub goes_on : Option Text → Value → List Value → Bool
unfolding json_at_path
goes_on (some path) body rows = elim (json_at_path body path) [
  | none ↦ false
  | some v ↦ option_eq (λ a b. if a then b else not b) (as_bool v) (some true)
]
goes_on none body rows = not (is_empty rows)

unfoldable pub with_size : Option Text → Option ℕ → Params → Params
with_size (some sp) (some sz) m = put sp (decimal sz) m
with_size _ _ m = m

unfoldable pub next_page :
    PaginationConfig → Params → Value → Option Text → List Value → ℕ → Option NextPage
unfolding next_cursor next_row_cursor goes_on last with_size parse_link_next cursor_at_path
next_page link_header m body link rows page_index = elim (parse_link_next link) [
  | none ↦ none
  | some u ↦ some (url u)
]
next_page (cursor next_path param) m body link rows page_index =
    if is_empty rows then none else next_cursor param m (cursor_at_path body next_path)
next_page (row_cursor param field more_path) m body link rows page_index =
    if goes_on more_path body rows then next_row_cursor param field m (last rows) else none
next_page (page param start size_param size) m body link rows page_index =
    if is_empty rows
    then none
    else let next_num = min (start + min (page_index % 4294967296 + 1) u32_max) u32_max in
      some (params (with_size size_param size (put param (decimal next_num) m)))
next_page (offset param size_param size) m body link rows page_index =
    if ltb (length rows) size
    then none
    else let next_offset = min (size * min (page_index + 1) u64_max) u64_max in
      some (params (put size_param (decimal size) (put param (decimal next_offset) m)))
next_page (body_cursor cursor_path next_path) m body link rows page_index =
    if is_empty rows
    then none
    else elim (cursor_at_path body next_path) [ none ↦ none | some c ↦ some (body_cursor_at c) ]
