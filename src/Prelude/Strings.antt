-- ===== src/Prelude/Strings.antt =====
-- Rust's `str` as the list of its code points, with the methods of the standard library that the
-- program calls.
use Prim.Native.Nat.{ℕ, ◌+◌}
use Prim.Native.Char.{code}
use Prim.Native.String.{String}
use mathlib.Core.Path.{◌≡◌, refl, ap}
use mathlib.Core.Logic.{◌↔◌}
use mathlib.Core.Bool.{Bool, true, false, ◌&&◌, ◌||◌}
use mathlib.Core.Option.{Option, none, some}
use mathlib.Core.List.{List, [], ◌∷◌, map}
use native.Mathlib.Omega.{arith}
use pawrly.Prelude.Tests.{leb, ◌==◌, ltb, if◌then◌else◌}
use pawrly.Prelude.Lists.{is_empty}

abbrev pub Text : Type 0
Text = List ℕ

-- The code points of a literal.
abbrev pub codes : String → Text
codes String.[] = []
codes (String.◌∷◌ c s) = code c ∷ codes s

-- `==` on `str`.
unfoldable pub text_eq : Text → Text → Bool
text_eq [] [] = true
text_eq [] (d ∷ t) = false
text_eq (c ∷ s) [] = false
text_eq (c ∷ s) (d ∷ t) = c == d && text_eq s t

pub text_eq_sound : (s t : Text) → text_eq s t ≡ true → s ≡ t
unfolding text_eq
text_eq_sound [] [] h = refl
text_eq_sound [] (d ∷ t) h = cc
text_eq_sound (c ∷ s) [] h = cc
text_eq_sound (c ∷ s) (d ∷ t) h = ground (arith, text_eq_sound s t)

pub text_eq_refl : (s : Text) → text_eq s s ≡ true
unfolding text_eq
text_eq_refl [] = refl
text_eq_refl (c ∷ s) = ground (arith, text_eq_refl s)

pub text_eq_iff : (s t : Text) → (text_eq s t ≡ true) ↔ (s ≡ t)
text_eq_iff s t = (text_eq_sound s t, λ e. cc (ap (text_eq s) e, text_eq_refl s))

-- `u8::to_ascii_lowercase`, `str::to_ascii_lowercase`.
unfoldable pub lower : ℕ → ℕ
lower c = if leb b'A' c && leb c b'Z' then c + 32 else c

pub lower_idem : (c : ℕ) → lower (lower c) ≡ lower c
unfolding lower
lower_idem c = ground arith

unfoldable pub to_ascii_lowercase : Text → Text
unfolding lower
to_ascii_lowercase = map lower

-- `str::eq_ignore_ascii_case`.
abbrev pub eq_ignore_ascii_case : Text → Text → Bool
eq_ignore_ascii_case s t = text_eq (to_ascii_lowercase s) (to_ascii_lowercase t)

-- `char::is_whitespace`: Unicode's `White_Space`.
unfoldable pub is_whitespace : ℕ → Bool
is_whitespace c =
    (leb 9 c && leb c 13)
    || c == 32
    || c == 0x85
    || c == 0xa0
    || c == 0x1680
    || (leb 0x2000 c && leb c 0x200a)
    || c == 0x2028
    || c == 0x2029
    || c == 0x202f
    || c == 0x205f
    || c == 0x3000

-- `str::trim_start_matches` and `str::trim_end_matches` with a predicate on characters.
unfoldable pub trim_start_matches : (ℕ → Bool) → Text → Text
trim_start_matches p [] = []
trim_start_matches p (c ∷ s) = if p c then trim_start_matches p s else c ∷ s

unfoldable pub trim_end_matches : (ℕ → Bool) → Text → Text
trim_end_matches p [] = []
trim_end_matches p (c ∷ s) =
    let rest = trim_end_matches p s in if is_empty rest && p c then [] else c ∷ rest

unfoldable pub trim : Text → Text
unfolding trim_start_matches trim_end_matches is_whitespace
trim s = trim_end_matches is_whitespace (trim_start_matches is_whitespace s)

-- `str::strip_prefix`.
unfoldable pub strip_prefix : Text → Text → Option Text
strip_prefix [] s = some s
strip_prefix (d ∷ p) [] = none
strip_prefix (d ∷ p) (c ∷ s) = if d == c then strip_prefix p s else none

-- `str::ends_with`, the suffix first.
unfoldable pub ends_with : Text → Text → Bool
unfolding text_eq
ends_with suffix [] = text_eq suffix []
ends_with suffix (c ∷ s) = text_eq suffix (c ∷ s) || ends_with suffix s

-- `str::contains` with a character.
unfoldable pub contains_char : ℕ → Text → Bool
contains_char d [] = false
contains_char d (c ∷ s) = d == c || contains_char d s

-- `str::len`: the bytes of the UTF-8 encoding.
abbrev utf8_width : ℕ → ℕ
utf8_width c = if ltb c 0x80 then 1 else if ltb c 0x800 then 2 else if ltb c 0x10000 then 3 else 4

unfoldable pub len : Text → ℕ
len [] = 0
len (c ∷ s) = utf8_width c + len s
