-- ===== src/Http/Bind.antt =====
-- The parameters of a scan: the first half of `scan_bound`, with `Derive::resolve`, `bound_elsewhere`
-- and `expand_fanout` (crates/pawrly-sources/http/src/typed.rs and source.rs).
pub mod Laws
pub mod Bound
use Prim.Native.Nat.{min}
use pawrly.Prelude.{
  ℕ, zero, suc, ◌-◌, Text, codes, Bool, ◌&&◌, ◌||◌, not, Option, none, some, List, [], ◌∷◌, ◌++◌,
  any, map, if◌then◌else◌, leb, text_eq, get, put, has_key, decimal, split_text,
}
use pawrly.Http.Table.{Derive, ago, split_param, ParamSpec, HttpTableSpec}
use pawrly.Http.Paginate.Next.{Params}
use pawrly.Http.Request.{Explode}
use pawrly.Http.Filters.{Expr, extract_cmp, extract_in_list, is_path_param, param_of}

abbrev pub Fanout : Type 0
Fanout = List (Text × List Text)

-- `nth`
unfoldable pub nth : ℕ → List Text → Option Text
nth i [] = none
nth zero (t ∷ ts) = some t
nth (suc i) (t ∷ ts) = nth i ts

-- A difference of `i64` in decimal, of which the second number is at most the largest `i64`.
abbrev difference : ℕ → ℕ → Text
difference a b = if leb b a then decimal (a - b) else codes "-" ++ decimal (b - a)

-- `Derive::resolve`, with the seconds of the Unix clock.
unfoldable pub resolve_derived : Derive → Params → ℕ → Option Text
unfolding get split_text nth decimal
resolve_derived (ago seconds) m now_epoch =
    some (difference now_epoch (min seconds 9223372036854775807))
resolve_derived (split_param from separator part) m now_epoch = elim (get from m) [
  | none ↦ none
  | some v ↦ nth part (split_text separator v)
]

-- The parameter that a comparison binds.
unfoldable pub bind_cmp : ParamSpec → (col op val : Text) → Params → Params
unfolding put get
bind_cmp param col op val m =
    if text_eq op (codes "=")
    then put col val m
    else elim (get op param.emit) [ none ↦ m | some query_param ↦ put query_param val m ]

unfoldable pub bind_filter : HttpTableSpec → Expr → Params → Params
unfolding extract_cmp bind_cmp
bind_filter spec f m = elim (extract_cmp f) [
  | none ↦ m
  | some (col, op, val) ↦ elim (param_of spec col) [
    | none ↦ m
    | some param ↦ bind_cmp param col op val m
  ]
]

unfoldable pub bind_filters : HttpTableSpec → List Expr → Params → Params
unfolding bind_filter
bind_filters spec [] m = m
bind_filters spec (f ∷ fs) m = bind_filters spec fs (bind_filter spec f m)

-- The lists of `IN`, to be repeated in the query or fanned out.
unfoldable pub split_lists : HttpTableSpec → List Expr → Explode → Fanout → Explode × Fanout
unfolding extract_in_list is_path_param put
split_lists spec [] explode fanout = (explode, fanout)
split_lists spec (f ∷ fs) explode fanout = elim (extract_in_list f) [
  | none ↦ split_lists spec fs explode fanout
  | some (col, vals) ↦ elim (param_of spec col) [
    | none ↦ split_lists spec fs explode fanout
    | some param ↦
        if param.explode && not (is_path_param spec col)
        then split_lists spec fs (put col vals explode) fanout
        else if param.required || is_path_param spec col
        then split_lists spec fs explode (fanout ++ (col, vals) ∷ [])
        else split_lists spec fs explode fanout
  ]
]

unfoldable pub bound_elsewhere : Text → Explode → Fanout → Bool
unfolding get
bound_elsewhere name explode fanout = has_key name explode || any (λ e. text_eq e.0 name) fanout

unfoldable pub add_defaults : List ParamSpec → Explode → Fanout → Params → Params
unfolding bound_elsewhere get put
add_defaults [] explode fanout m = m
add_defaults (p ∷ ps) explode fanout m = elim p.default [
  | none ↦ add_defaults ps explode fanout m
  | some default ↦
      if not (has_key p.name m) && not (bound_elsewhere p.name explode fanout)
      then add_defaults ps explode fanout (put p.name default m)
      else add_defaults ps explode fanout m
]

-- The parameters that are computed, all from the same ones.
unfoldable pub derived_params : List ParamSpec → Explode → Fanout → Params → ℕ → Params
unfolding bound_elsewhere resolve_derived get
derived_params [] explode fanout m now = []
derived_params (p ∷ ps) explode fanout m now =
    let rest = derived_params ps explode fanout m now in
    if has_key p.name m || bound_elsewhere p.name explode fanout then rest else elim p.derive [
      | none ↦ rest
      | some d ↦ elim (resolve_derived d m now) [ none ↦ rest | some v ↦ (p.name, v) ∷ rest ]
    ]

-- `BTreeMap::extend`
unfoldable pub extend : Params → Params → Params
unfolding put
extend [] m = m
extend ((k, v) ∷ kvs) m = extend kvs (put k v m)

unfoldable pub unbound_required : List ParamSpec → Explode → Fanout → Params → List Text
unfolding bound_elsewhere get
unbound_required [] explode fanout m = []
unbound_required (p ∷ ps) explode fanout m =
    let rest = unbound_required ps explode fanout m in
    if p.required && not (has_key p.name m) && not (bound_elsewhere p.name explode fanout)
    then p.name ∷ rest
    else rest

-- Each set with each value of one parameter.
unfoldable pub with_values : Text → List Text → List Params → List Params
unfolding put
with_values name vals [] = []
with_values name vals (s ∷ sets) = map (λ v. put name v s) vals ++ with_values name vals sets

unfoldable pub expand_from : List Params → Fanout → List Params
unfolding with_values
expand_from sets [] = sets
expand_from sets ((name, vals) ∷ fanout) = expand_from (with_values name vals sets) fanout

unfoldable pub expand_fanout : Params → Fanout → List Params
unfolding expand_from
expand_fanout base fanout = expand_from (base ∷ []) fanout

-- The bindings of a scan: what all its requests share, the lists, and the required parameters without a
-- value.
pub record Bindings : Type 0 where
  pub params : Params
  pub explode : Explode
  pub fanout : Fanout
  pub unbound : List Text

unfoldable pub bind : HttpTableSpec → List Expr → ℕ → Bindings
unfolding bind_filters split_lists add_defaults derived_params extend unbound_required
bind spec filters now_epoch =
    let direct = bind_filters spec filters [] in
    let (explode, fanout) = split_lists spec filters [] [] in
    let defaulted = add_defaults spec.params explode fanout direct in
    let all_params =
      extend (derived_params spec.params explode fanout defaulted now_epoch) defaulted in
    record {
      params = all_params;
      explode = explode;
      fanout = fanout;
      unbound = unbound_required spec.params explode fanout all_params;
    }
