-- ===== src/Semantic/Grain.antt =====
-- `TimeGrain` of crates/pawrly-core/src/semantic.rs.
pub mod Order
use pawrly.Prelude.{
  ℕ, ◌==◌, Text, codes, Bool, true, false, Option, none, some, if◌then◌else◌, text_eq,
}

pub data TimeGrain : Type 0 where
  hour day week month quarter year : TimeGrain

unfoldable pub as_str : TimeGrain → Text
as_str hour = codes "hour"
as_str day = codes "day"
as_str week = codes "week"
as_str month = codes "month"
as_str quarter = codes "quarter"
as_str year = codes "year"

unfoldable pub parse : Text → Option TimeGrain
parse s =
    if text_eq s (codes "hour")
    then some hour
    else if text_eq s (codes "day")
    then some day
    else if text_eq s (codes "week")
    then some week
    else if text_eq s (codes "month")
    then some month
    else if text_eq s (codes "quarter")
    then some quarter
    else if text_eq s (codes "year")
    then some year
    else none

unfoldable pub rank : TimeGrain → ℕ
rank hour = 0
rank day = 1
rank week = 2
rank month = 3
rank quarter = 4
rank year = 5

-- The derived `==`.
unfoldable pub grain_eq : TimeGrain → TimeGrain → Bool
unfolding rank
grain_eq g h = rank g == rank h

-- The `match` of `can_roll_up_to`, for two grains that differ.
unfoldable pub nests : TimeGrain → TimeGrain → Bool
nests hour _ = true
nests day week = true
nests day month = true
nests day quarter = true
nests day year = true
nests month quarter = true
nests month year = true
nests quarter year = true
nests _ _ = false

unfoldable pub can_roll_up_to : TimeGrain → TimeGrain → Bool
unfolding grain_eq nests
can_roll_up_to g coarser = if grain_eq g coarser then true else nests g coarser
