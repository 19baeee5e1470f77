-- ===== src/Http/Paginate/Link.antt =====
-- `parse_link_next` (crates/pawrly-sources/http/src/paginate.rs), on the text of the header.
use pawrly.Prelude.{
  ℕ, ◌==◌, Text, codes, Bool, false, ◌&&◌, ◌||◌, not, Option, none, some, List, [], ◌∷◌, is_empty,
  any, if◌then◌else◌, text_eq, trim, trim_start_matches, trim_end_matches, strip_prefix, split,
}

unfoldable pub trim_quotes : Text → Text
unfolding trim_start_matches trim_end_matches
trim_quotes s =
    let is_quote : ℕ → Bool = λ c. c == b'"' || c == b'\'' in
    trim_end_matches is_quote (trim_start_matches is_quote s)

unfoldable pub is_next_rel : Text → Bool
unfolding trim_quotes strip_prefix trim
is_next_rel attr = elim (strip_prefix (codes "rel=") (trim attr)) [
  | none ↦ false
  | some v ↦ text_eq (trim_quotes v) (codes "next")
]

-- The branch is taken only where the attribute is no `rel`; no text begins with both.
unfoldable pub is_results_false : Text → Bool
unfolding trim_quotes strip_prefix trim
is_results_false attr = elim (strip_prefix (codes "rel=") (trim attr)) [
  | some v ↦ false
  | none ↦ elim (strip_prefix (codes "results=") (trim attr)) [
    | none ↦ false
    | some v ↦ text_eq (trim_quotes v) (codes "false")
  ]
]

-- One entry `<url>; attr; attr` of the list.
unfoldable pub link_entry : List Text → Option Text
unfolding is_next_rel is_results_false trim
link_entry [] = none
link_entry (url_seg ∷ attrs) =
    let url =
      trim_end_matches (λ c. c == b'>') (trim_start_matches (λ c. c == b'<') (trim url_seg)) in
    if is_empty url
    then none
    else if any is_next_rel attrs && not (any is_results_false attrs)
    then some url
    else none

unfoldable pub first_next : List Text → Option Text
unfolding link_entry split
first_next [] = none
first_next (part ∷ parts) =
    let rest = first_next parts in
    elim (link_entry (split b';' part)) [ some url ↦ some url | none ↦ rest ]

unfoldable pub parse_link_next : Option Text → Option Text
unfolding first_next
parse_link_next none = none
parse_link_next (some header) = first_next (split b',' header)
