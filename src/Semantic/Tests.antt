-- ===== src/Semantic/Tests.antt =====
-- Runs of the matcher on the inputs of rollup.rs's own tests, and the theorems at concrete inputs.
use pawrly.Prelude.{codes, ◌≡◌, refl, some, List, [], ◌∷◌, text_eq, contains_char}
use pawrly.Semantic.Grain.{parse, can_roll_up_to, nests, grain_eq, rank}
use pawrly.Semantic.Rollup.{
  PreAggregation, SemanticFilter, SemanticQuery, SemanticModel, covers, match_rollup, grain_covers,
  dim_covered, parse_query_dim, parse_bare_dim, split_once, measure_name, min_by_dimensions,
}
use pawrly.Semantic.Rollup.Matching.{IsSmallest, match_rollup-IsSmallest, match_rollup-filters}

abbrev monthly : PreAggregation
monthly = record {
  name = codes "monthly";
  dimensions = codes "order_date.month" ∷ codes "status" ∷ [];
  measures = codes "revenue" ∷ [];
}

abbrev daily : PreAggregation
daily = record {
  name = codes "daily";
  dimensions = codes "order_date.day" ∷ [];
  measures = codes "revenue" ∷ [];
}

abbrev orders : SemanticModel
orders = record { name = codes "orders"; pre_aggregations = monthly ∷ daily ∷ [] }

abbrev by_quarter : SemanticQuery
by_quarter = record {
  measures = codes "orders.revenue" ∷ [];
  dimensions = codes "orders.order_date.quarter" ∷ [];
  filters = record { member = codes "orders.order_date.month"; condition = codes "= 2024-01" } ∷ [];
}

-- A filter on single hours.
abbrev on_hours : List SemanticFilter
on_hours =
    record { member = codes "orders.order_date.hour"; condition = codes "= 2024-01-02T03" } ∷ []

match_run : match_rollup orders by_quarter ≡ some daily
unfolding match_rollup covers dim_covered parse_query_dim parse_bare_dim split_once measure_name
    min_by_dimensions grain_covers can_roll_up_to nests grain_eq rank parse text_eq contains_char
match_run = refl

match_rollup-IsSmallest_example :
    IsSmallest
      (λ pre. covers pre by_quarter)
      orders.pre_aggregations
      (match_rollup orders by_quarter)
match_rollup-IsSmallest_example = match_rollup-IsSmallest orders by_quarter

match_rollup-filters_example :
    match_rollup orders by_quarter ≡ match_rollup orders (record by_quarter { filters = on_hours })
unfolding parse_query_dim parse_bare_dim split_once
match_rollup-filters_example = match_rollup-filters orders by_quarter on_hours refl
