-- ===== src/Semantic/Rollup.antt =====
-- crates/pawrly-semantic/src/rollup.rs: which pre-aggregation serves a query. A query and a
-- pre-aggregation have the fields that are read there.
pub mod Matching
use pawrly.Prelude.{
  ◌==◌, leb, Text, codes, Bool, true, false, ◌&&◌, Option, none, some, List, [], ◌∷◌, ◌++◌, map,
  any, all, retain, length, if◌then◌else◌, text_eq, contains_char,
}
use pawrly.Semantic.Grain.{TimeGrain, can_roll_up_to}
use pawrly.Semantic.Grain

pub data MeasureAgg : Type 0 where
  sum count count_distinct avg min max : MeasureAgg
  custom : Text → MeasureAgg

unfoldable pub is_rollup_safe : MeasureAgg → Bool
is_rollup_safe sum = true
is_rollup_safe count = true
is_rollup_safe min = true
is_rollup_safe max = true
is_rollup_safe _ = false

pub record PreAggregation : Type 0 where
  pub name : Text
  pub dimensions : List Text
  pub measures : List Text

pub record SemanticFilter : Type 0 where
  pub member : Text
  -- the operator and its values, that the matcher does not read
  pub condition : Text

pub record SemanticQuery : Type 0 where
  pub measures : List Text
  pub dimensions : List Text
  pub filters : List SemanticFilter

pub record SemanticModel : Type 0 where
  pub name : Text
  pub pre_aggregations : List PreAggregation

pub record Member : Type 0 where
  pub name : Text
  pub grain : Option TimeGrain

-- `str::split_once('.')`.
unfoldable pub split_once : Text → Option (Text × Text)
split_once [] = none
split_once (c ∷ s) =
    if c == b'.'
    then some ([], s)
    else elim (split_once s) [ none ↦ none | some (a, b) ↦ some (c ∷ a, b) ]

unfoldable pub parse_bare_dim : Text → Member
unfolding split_once
parse_bare_dim s = elim (split_once s) [
  | none ↦ record { name = s; grain = none }
  | some (name, grain) ↦ record { name = name; grain = Grain.parse grain }
]

unfoldable pub parse_query_dim : Text → Member
unfolding parse_bare_dim
parse_query_dim member = elim (split_once member) [
  | none ↦ parse_bare_dim member
  | some (_, r) ↦ parse_bare_dim r
]

-- `rsplit('.').next()`: what follows the last dot.
unfoldable pub measure_name : Text → Text
measure_name [] = []
measure_name (c ∷ s) =
    let rest = measure_name s in
    if contains_char b'.' s then rest else if c == b'.' then s else c ∷ s

unfoldable pub grain_covers : Option TimeGrain → Option TimeGrain → Bool
unfolding can_roll_up_to
grain_covers none none = true
grain_covers (some _) none = false
grain_covers none (some _) = true
grain_covers (some p) (some qg) = can_roll_up_to p qg

-- The closure of `covers`.
unfoldable pub dim_covered : List Member → Member → Bool
unfolding grain_covers
dim_covered pre_dims want =
    any (λ have. text_eq have.name want.name && grain_covers have.grain want.grain) pre_dims

abbrev pub names_dim : List Member → Text → Bool
names_dim pre_dims name = any (λ d. text_eq d.name name) pre_dims

unfoldable pub covers : PreAggregation → SemanticQuery → Bool
unfolding dim_covered parse_query_dim measure_name
covers pre q =
    let pre_dims = map parse_bare_dim pre.dimensions in
    all (λ member. dim_covered pre_dims (parse_query_dim member)) q.dimensions
    && all (λ (f : SemanticFilter). names_dim pre_dims (parse_query_dim f.member).name) q.filters
    && all (λ member. any (λ pm. text_eq pm (measure_name member)) pre.measures) q.measures

-- `Iterator::min_by_key`, with the number of dimensions: the first of the smallest.
unfoldable pub min_by_dimensions : List PreAggregation → Option PreAggregation
min_by_dimensions [] = none
min_by_dimensions (p ∷ ps) = elim (min_by_dimensions ps) [
  | none ↦ some p
  | some r ↦ if leb (length p.dimensions) (length r.dimensions) then some p else some r
]

unfoldable pub match_rollup : SemanticModel → SemanticQuery → Option PreAggregation
unfolding covers min_by_dimensions
match_rollup model q = min_by_dimensions (retain (λ pre. covers pre q) model.pre_aggregations)

unfoldable pub rollup_table_name : Text → Text → Text
rollup_table_name model preagg = model ++ codes "__" ++ preagg
