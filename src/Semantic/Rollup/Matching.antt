-- ===== src/Semantic/Rollup/Matching.antt =====
-- Which pre-aggregation `match_rollup` chooses, and what it does not look at.
use pawrly.Prelude.{
  ℕ, ◌≤◌, leb, leb_iff, Text, ◌≡◌, refl, sym, ap, ◌∙◌, ◌⊎◌, inl, inr, Bool, true, false, ◌&&◌,
  Option, none, some, List, [], ◌∷◌, map, any, all, All, retain, length, text_eq, if◌then◌else◌,
  Bool-cases, arith,
}
use pawrly.Semantic.Rollup.{
  PreAggregation, SemanticFilter, SemanticQuery, SemanticModel, Member, parse_bare_dim,
  parse_query_dim, dim_covered, names_dim, covers, min_by_dimensions, match_rollup, measure_name,
}

abbrev size : PreAggregation → ℕ
size p = length p.dimensions

-- `p` is in the list.
abbrev pub Among : PreAggregation → List PreAggregation → Type 0
Among p [] = ⊥
Among p (x ∷ xs) = (x ≡ p) ⊎ Among p xs

-- What a choice has to be, for a test on pre-aggregations: one that passes and has no more dimensions
-- than any that passes, or none where none passes.
abbrev pub IsSmallest :
    (PreAggregation → Bool) → List PreAggregation → Option PreAggregation → Type 0
IsSmallest test ps none = All (λ x. test x ≡ false) ps
IsSmallest test ps (some p) =
    Among p ps
    × (test p ≡ true)
    × All (λ x. (test x ≡ false) ⊎ (length p.dimensions ≤ length x.dimensions)) ps

weaken :
    (test : PreAggregation → Bool) (p r : PreAggregation) (ps : List PreAggregation)
    → size p ≤ size r
    → All (λ x. (test x ≡ false) ⊎ (size r ≤ size x)) ps
    → All (λ x. (test x ≡ false) ⊎ (size p ≤ size x)) ps
weaken test p r [] le h = tt
weaken test p r (x ∷ xs) le (inl f, h) = (inl f, weaken test p r xs le h)
weaken test p r (x ∷ xs) le (inr g, h) = (inr (omega arith), weaken test p r xs le h)

none_passed :
    (test : PreAggregation → Bool) (p : PreAggregation) (ps : List PreAggregation)
    → All (λ x. test x ≡ false) ps
    → All (λ x. (test x ≡ false) ⊎ (size p ≤ size x)) ps
none_passed test p [] h = tt
none_passed test p (x ∷ xs) (f, h) = (inl f, none_passed test p xs h)

-- One more pre-aggregation in front of the list.
extend :
    (test : PreAggregation → Bool) (p : PreAggregation) (ps : List PreAggregation)
    (best : Option PreAggregation)
    → min_by_dimensions (retain test ps) ≡ best
    → IsSmallest test ps best
    → IsSmallest test (p ∷ ps) (min_by_dimensions (retain test (p ∷ ps)))
unfolding min_by_dimensions
extend test p ps best e h = elim (Bool-cases (test p)) [
  | inr f ↦ rw f (rw e (skip best h f))
  | inl t ↦ rw t (rw (e, min_by_dimensions) (take best h t))
]
  where
    skip :
        (b : Option PreAggregation)
        → IsSmallest test ps b
        → test p ≡ false
        → IsSmallest test (p ∷ ps) b
    skip none k f = (f, k)
    skip (some r) (among, good, least) f = (inr among, good, (inl f, least))

    take :
        (b : Option PreAggregation)
        → IsSmallest test ps b
        → test p ≡ true
        → IsSmallest test
            (p ∷ ps)
            (elim b [ none ↦ some p | some r ↦ if leb (size p) (size r) then some p else some r ])
    take none k t = (inl refl, t, (inr (omega arith), none_passed test p ps k))
    take (some r) (among, good, least) t = elim (Bool-cases (leb (size p) (size r))) [
      | inl le ↦ rw le (
        inl refl,
        t,
        (inr (omega arith), weaken test p r ps ((leb_iff (size p) (size r)).0 le) least),
      )
      | inr gt ↦ rw gt (inr among, good, (inr (ground (arith, leb_iff (size p) (size r))), least))
    ]

smallest :
    (test : PreAggregation → Bool) (ps : List PreAggregation)
    → IsSmallest test ps (min_by_dimensions (retain test ps))
unfolding min_by_dimensions
smallest test [] = tt
smallest test (p ∷ ps) =
    extend test p ps (min_by_dimensions (retain test ps)) refl (smallest test ps)

-- `match_rollup` chooses a pre-aggregation of the model that covers the query, with the fewest
-- dimensions of those that do, and chooses none exactly where none covers it.
pub match_rollup-IsSmallest :
    (model : SemanticModel) (q : SemanticQuery)
    → IsSmallest (λ pre. covers pre q) model.pre_aggregations (match_rollup model q)
unfolding match_rollup
match_rollup-IsSmallest model q = smallest (λ pre. covers pre q) model.pre_aggregations

-- The dimension that a filter is on, without the grain.
abbrev pub filter_dim : SemanticFilter → Text
filter_dim f = (parse_query_dim f.member).name

filters_common :
    (dims : List Member) (fs gs : List SemanticFilter)
    → map filter_dim fs ≡ map filter_dim gs
    → all (λ f. names_dim dims (filter_dim f)) fs ≡ all (λ f. names_dim dims (filter_dim f)) gs
filters_common dims fs gs e = sym (all_of_names fs) ∙ ap (all (names_dim dims)) e ∙ all_of_names gs
  where
    all_of_names :
        (hs : List SemanticFilter)
        → all (names_dim dims) (map filter_dim hs) ≡ all (λ f. names_dim dims (filter_dim f)) hs
    all_of_names [] = refl
    all_of_names (h ∷ hs) = ap (λ b. names_dim dims (filter_dim h) && b) (all_of_names hs)

covers_common :
    (pre : PreAggregation) (q : SemanticQuery) (gs : List SemanticFilter)
    → map filter_dim q.filters ≡ map filter_dim gs
    → covers pre q ≡ covers pre (record q { filters = gs })
unfolding covers
covers_common pre q gs e =
    ap
      (λ b.
        all (λ member. dim_covered (map parse_bare_dim pre.dimensions) (parse_query_dim member))
          q.dimensions
        && b
        && all (λ member. any (λ pm. text_eq pm (measure_name member)) pre.measures) q.measures)
      (filters_common (map parse_bare_dim pre.dimensions) q.filters gs e)

retain_common :
    (p r : PreAggregation → Bool) (ps : List PreAggregation)
    → ((x : PreAggregation) → p x ≡ r x)
    → retain p ps ≡ retain r ps
retain_common p r [] e = refl
retain_common p r (x ∷ xs) e =
    rw (e x) (ap (λ rest. if r x then x ∷ rest else rest) (retain_common p r xs e))

-- Two queries that differ in their filters alone, and whose filters are on the same dimensions, get the
-- same pre-aggregation, whatever the grains, the operators and the values of the filters are.
pub match_rollup-filters :
    (model : SemanticModel) (q : SemanticQuery) (gs : List SemanticFilter)
    → map filter_dim q.filters ≡ map filter_dim gs
    → match_rollup model q ≡ match_rollup model (record q { filters = gs })
unfolding match_rollup
match_rollup-filters model q gs e = ap min_by_dimensions (
    retain_common (λ pre. covers pre q) (λ pre. covers pre (record q { filters = gs }))
      model.pre_aggregations (λ pre. covers_common pre q gs e))
