-- ===== src/Http/Body.antt =====
-- The bodies of requests: `render_template`, `render_json_body` and `prune_unbound_filters` of
-- crates/pawrly-sources/http/src/typed.rs.
pub mod Laws
use pawrly.Prelude.{
  Text, codes, Bool, true, false, ◌&&◌, not, Option, none, some, List, [], ◌∷◌, ◌++◌, if◌then◌else◌,
  text_eq, has_key, get, replace,
}
use pawrly.Http.Json.{
  Value, null, bool, number, string, array, object, Items, nil, cons, Fields, end, field,
  insert_field,
}
use pawrly.Http.Table.{ParamSpec}

-- `format!("{{{k}}}")`
abbrev pub placeholder : Text → Text
placeholder k = codes "{" ++ k ++ codes "}"

unfoldable pub render_template : Text → List (Text × Text) → Text
unfolding replace
render_template out [] = out
render_template out ((k, v) ∷ params) = render_template (replace (placeholder k) v out) params

abbrev pub unbound_sentinel : Text
unbound_sentinel = codes "__pawrly_unbound_placeholder__"

abbrev no_fields : Fields → Bool
no_fields end = true
no_fields (field k v fs) = false

unfoldable mutual
  unfolding text_eq insert_field

  pub prune_unbound_filters : Value → Option Value
  prune_unbound_filters (string s) = if text_eq s unbound_sentinel then none else some (string s)
  prune_unbound_filters (object fs) =
      let out = prune_fields fs end in
      if not (no_fields fs) && no_fields out then none else some (object out)
  prune_unbound_filters (array vs) = some (array (prune_items vs))
  prune_unbound_filters null = some null
  prune_unbound_filters (bool b) = some (bool b)
  prune_unbound_filters (number n) = some (number n)

  pub prune_items : Items → Items
  prune_items nil = nil
  prune_items (cons v vs) =
      let rest = prune_items vs in
      elim (prune_unbound_filters v) [ none ↦ rest | some w ↦ cons w rest ]

  pub prune_fields : Fields → Fields → Fields
  prune_fields end out = out
  prune_fields (field k v fs) out = elim (prune_unbound_filters v) [
    | none ↦ prune_fields fs out
    | some w ↦ prune_fields fs (insert_field k w out)
  ]

-- The declared names that are not bound.
unfoldable pub unbound_names : List ParamSpec → List (Text × Text) → List Text
unfolding get
unbound_names [] bound = []
unbound_names (p ∷ ps) bound =
    let rest = unbound_names ps bound in if has_key p.name bound then rest else p.name ∷ rest

-- The quotation mark.
abbrev quoted : Text → Text
quoted s = b'"' ∷ (s ++ b'"' ∷ [])

unfoldable pub mark : List Text → Text → Text
unfolding replace
mark [] marked = marked
mark (name ∷ names) marked = mark names (
    replace (placeholder name) (quoted unbound_sentinel)
      (replace (quoted (placeholder name)) (quoted unbound_sentinel) marked))

-- A marked body, parsed.
abbrev pruned : (Value → Text) → Text → Option Value → Text
unfolding prune_unbound_filters
pruned to_json rendered none = rendered
pruned to_json rendered (some v) = elim (prune_unbound_filters v) [
  | none ↦ codes "{}"
  | some w ↦ to_json w
]

unfoldable pub render_json_body :
    (from_json : Text → Option Value)
    → (to_json : Value → Text) → Text
    → List (Text × Text)
    → List ParamSpec
    → Text
unfolding render_template unbound_names mark prune_unbound_filters
render_json_body from_json to_json template bound declared =
    let rendered = render_template template bound in
    elim (unbound_names declared bound) [
      | [] ↦ rendered
      | n ∷ ns ↦ pruned to_json rendered (from_json (mark (n ∷ ns) rendered))
    ]
