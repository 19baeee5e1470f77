-- ===== src/Prelude/Texts.antt =====
-- More methods of `str`: splitting, searching, replacing, and the decimal form of numbers.
use Prim.Native.Nat.{ℕ, zero, suc, ◌+◌, ◌-◌, ◌*◌, ◌/◌, ◌%◌, ◌<◌}
use mathlib.Core.Path.{◌≡◌, ap, ◌∙◌}
use mathlib.Core.Logic.{inl, inr}
use mathlib.Core.Bool.{Bool, true, false, ◌&&◌, ◌||◌}
use mathlib.Core.Option.{Option, none, some}
use mathlib.Core.List.{List, [], ◌∷◌, ◌++◌}
use native.Mathlib.Omega.{arith}
use pawrly.Prelude.Tests.{leb, ltb, ltb_iff, ◌==◌, if◌then◌else◌, Bool-cases}
use pawrly.Prelude.Lists.{length, is_empty}
use pawrly.Prelude.Strings.{Text}

-- `str::starts_with`, the prefix first.
unfoldable pub starts_with : Text → Text → Bool
starts_with [] s = true
starts_with (d ∷ p) [] = false
starts_with (d ∷ p) (c ∷ s) = d == c && starts_with p s

-- `str::contains` with a text, the needle first.
unfoldable pub contains : Text → Text → Bool
unfolding starts_with
contains needle [] = is_empty needle
contains needle (c ∷ s) = starts_with needle (c ∷ s) || contains needle s

-- `str::split` with a character.
abbrev pub onto_first : ℕ → List Text → List Text
onto_first c [] = (c ∷ []) ∷ []
onto_first c (t ∷ ts) = (c ∷ t) ∷ ts

unfoldable pub split : ℕ → Text → List Text
split d [] = [] ∷ []
split d (c ∷ s) = let rest = split d s in if c == d then [] ∷ rest else onto_first c rest

-- `str::find` with a character, and the parts before it and from it on.
unfoldable pub cut_at : ℕ → Text → Text × Text
cut_at d [] = ([], [])
cut_at d (c ∷ s) =
    let (before, from) = cut_at d s in if c == d then ([], c ∷ s) else (c ∷ before, from)

-- `str::replace` for a pattern that is not empty. The first number counts characters of the last match
-- that are still to be passed over.
unfoldable pub replace_from : ℕ → (from to : Text) → Text → Text
unfolding starts_with
replace_from skip from to [] = []
replace_from (suc skip) from to (c ∷ s) = replace_from skip from to s
replace_from zero from to (c ∷ s) = elim (starts_with from (c ∷ s)) [
  | true ↦ to ++ replace_from (length from - 1) from to s
  | false ↦ c ∷ replace_from zero from to s
]

-- The empty pattern matches before each character and at the end.
unfoldable pub interleave : Text → Text → Text
interleave to [] = to
interleave to (c ∷ s) = to ++ c ∷ interleave to s

unfoldable pub replace : (from to : Text) → Text → Text
unfolding replace_from interleave
replace [] to s = interleave to s
replace (d ∷ from) to s = replace_from zero (d ∷ from) to s

-- `str::split` with a text, which is not empty in `split_from`. The number counts characters of the last
-- match that are still to be passed over.
unfoldable pub split_from : ℕ → Text → Text → List Text
unfolding starts_with
split_from skip sep [] = [] ∷ []
split_from (suc skip) sep (c ∷ s) = split_from skip sep s
split_from zero sep (c ∷ s) = elim (starts_with sep (c ∷ s)) [
  | true ↦ [] ∷ split_from (length sep - 1) sep s
  | false ↦ onto_first c (split_from zero sep s)
]

abbrev singles : Text → List Text
singles [] = [] ∷ []
singles (c ∷ s) = (c ∷ []) ∷ singles s

unfoldable pub split_text : (sep : Text) → Text → List Text
unfolding split_from
split_text [] s = [] ∷ singles s
split_text (d ∷ sep) s = split_from zero (d ∷ sep) s

-- `[_]::join` on strings.
unfoldable pub join_texts : Text → List Text → Text
join_texts sep [] = []
join_texts sep (t ∷ []) = t
join_texts sep (t ∷ u ∷ ts) = t ++ sep ++ join_texts sep (u ∷ ts)

-- The value of digits read from the left, or `none` at another character.
unfoldable pub digits_from : ℕ → Text → Option ℕ
digits_from acc [] = some acc
digits_from acc (c ∷ s) =
    let rest = digits_from (acc * 10 + (c - b'0')) s in
    if leb b'0' c && leb c b'9' then rest else none

abbrev pub below : ℕ → Option ℕ → Option ℕ
below bound none = none
below bound (some n) = if ltb n bound then some n else none

-- `str::parse` for an unsigned type whose numbers are below the bound: one `+` may stand first.
unfoldable pub parse_unsigned : ℕ → Text → Option ℕ
unfolding digits_from
parse_unsigned bound [] = none
parse_unsigned bound (c ∷ s) =
    if c == b'+'
    then if is_empty s then none else below bound (digits_from 0 s)
    else below bound (digits_from 0 (c ∷ s))

-- `str::parse` for a signed type, as the sign with the size; the sizes of its positive numbers are below
-- the bound.
abbrev sized : ℕ → Bool → Option ℕ → Option (Bool × ℕ)
sized bound negative none = none
sized bound negative (some n) = if ltb n bound then some (negative, n) else none

unfoldable pub parse_signed : ℕ → Text → Option (Bool × ℕ)
unfolding parse_unsigned digits_from
parse_signed bound [] = none
parse_signed bound (c ∷ s) =
    if c == b'-'
    then if is_empty s then none else sized (bound + 1) true (digits_from 0 s)
    else sized bound false (parse_unsigned bound (c ∷ s))

-- `to_string` of an unsigned number, with as many rounds as suffice.
unfoldable pub decimal_within : ℕ → ℕ → Text
decimal_within zero n = []
decimal_within (suc rounds) n =
    let front = decimal_within rounds (n / 10) in
    if ltb n 10 then (b'0' + n) ∷ [] else front ++ (b'0' + n % 10) ∷ []

unfoldable pub decimal : ℕ → Text
unfolding decimal_within
decimal n = decimal_within (suc n) n

digits_from-concat :
    (acc k n : ℕ) (s : Text)
    → digits_from acc s ≡ some k
    → n < 10
    → digits_from acc (s ++ (b'0' + n) ∷ []) ≡ some (k * 10 + n)
unfolding digits_from
digits_from-concat acc k n [] h lt = ground arith
digits_from-concat acc k n (c ∷ s) h lt =
    ground (arith, digits_from-concat (acc * 10 + (c - b'0')) k n s)

digits_from-decimal_within :
    (rounds n : ℕ) → n < rounds → digits_from 0 (decimal_within rounds n) ≡ some n
unfolding decimal_within digits_from
digits_from-decimal_within zero n h = elim h [ ]
digits_from-decimal_within (suc rounds) n h = elim (Bool-cases (ltb n 10)) [
  | inl t ↦ rw t (ground (arith, ltb_iff n 10))
  | inr f ↦ rw f (
      digits_from-concat 0 (n / 10) (n % 10) (decimal_within rounds (n / 10))
        (digits_from-decimal_within rounds (n / 10) (ground (arith, ltb_iff n 10))) (omega arith)
      ∙ ap some (omega arith))
]

-- The digits of a number are read back as the number.
pub digits_from-decimal : (n : ℕ) → digits_from 0 (decimal n) ≡ some n
unfolding decimal
digits_from-decimal n = digits_from-decimal_within (suc n) n (omega arith)
