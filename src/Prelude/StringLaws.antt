-- ===== src/Prelude/StringLaws.antt =====
-- What the methods of `str` give: trimming, lower case, prefixes and suffixes.
use Prim.Native.Nat.{ℕ, ◌+◌, ◌<◌}
use mathlib.Core.Path.{◌≡◌, refl, sym, ap}
use mathlib.Core.Logic.{◌↔◌, ◌≢◌, inl, inr}
use mathlib.Core.Bool.{Bool, true, ◌&&◌}
use mathlib.Core.Option.{some}
use mathlib.Core.List.{[], ◌∷◌, ◌++◌}
use native.Mathlib.Omega.{arith}
use pawrly.Prelude.Tests.{Bool-cases}
use pawrly.Prelude.Lists.{is_empty}
use pawrly.Prelude.Strings.{
  Text, text_eq, text_eq_iff, text_eq_refl, lower, lower_idem, to_ascii_lowercase, trim_end_matches,
  strip_prefix, ends_with, len,
}

-- A text that `to_ascii_lowercase` leaves alone.
abbrev pub IsLower : Text → Type 0
IsLower s = to_ascii_lowercase s ≡ s

pub IsLower-to_ascii_lowercase : (s : Text) → IsLower (to_ascii_lowercase s)
unfolding to_ascii_lowercase
IsLower-to_ascii_lowercase [] = refl
IsLower-to_ascii_lowercase (c ∷ s) = cc (lower_idem c, IsLower-to_ascii_lowercase s)

pub to_ascii_lowercase-append :
    (s t : Text) → to_ascii_lowercase (s ++ t) ≡ to_ascii_lowercase s ++ to_ascii_lowercase t
unfolding to_ascii_lowercase
to_ascii_lowercase-append [] t = refl
to_ascii_lowercase-append (c ∷ s) t = ap (λ r. lower c ∷ r) (to_ascii_lowercase-append s t)

pub IsLower-tail : (c : ℕ) (s : Text) → IsLower (c ∷ s) → (lower c ≡ c) × IsLower s
unfolding to_ascii_lowercase
IsLower-tail c s h = (cc, cc)

pub IsLower-cons : (c : ℕ) (s : Text) → lower c ≡ c → IsLower s → IsLower (c ∷ s)
unfolding to_ascii_lowercase
IsLower-cons c s h k = cc

pub IsLower-trim_end_matches :
    (p : ℕ → Bool) (s : Text) → IsLower s → IsLower (trim_end_matches p s)
unfolding trim_end_matches
IsLower-trim_end_matches p [] h = h
IsLower-trim_end_matches p (c ∷ s) h =
    let k = IsLower-trim_end_matches p s (IsLower-tail c s h).1 in
    elim (Bool-cases (is_empty (trim_end_matches p s) && p c)) [
      | inl e ↦ rw e (unfold to_ascii_lowercase in refl)
      | inr e ↦ rw e (IsLower-cons c _ (IsLower-tail c s h).0 k)
    ]

pub trim_end_matches_idem :
    (p : ℕ → Bool) (s : Text) → trim_end_matches p (trim_end_matches p s) ≡ trim_end_matches p s
unfolding trim_end_matches
trim_end_matches_idem p [] = refl
trim_end_matches_idem p (c ∷ s) = ground (arith, trim_end_matches_idem p s)

-- What stands before a text that survives the trimming survives too.
pub trim_end_matches-append :
    (p : ℕ → Bool) (s t : Text)
    → t ≢ []
    → trim_end_matches p t ≡ t
    → trim_end_matches p (s ++ t) ≡ s ++ t
unfolding trim_end_matches
trim_end_matches-append p [] t n h = h
trim_end_matches-append p (c ∷ s) t n h =
    ground (arith, trim_end_matches-append p s t n h, append-ne-nil s t n)
  where
    append-ne-nil : (s t : Text) → t ≢ [] → s ++ t ≢ []
    append-ne-nil [] t n = n
    append-ne-nil (c ∷ s) t n = cc

pub strip_prefix_iff : (p s rest : Text) → (strip_prefix p s ≡ some rest) ↔ (s ≡ p ++ rest)
unfolding strip_prefix
strip_prefix_iff [] s rest = (λ h. cc, λ h. cc)
strip_prefix_iff (d ∷ p) [] rest = (λ h. cc, λ h. cc)
strip_prefix_iff (d ∷ p) (c ∷ s) rest =
    let (mp, mpr) = strip_prefix_iff p s rest in (λ h. ground (arith, mp), λ h. ground (arith, mpr))

pub IsLower-suffix : (s t : Text) → IsLower (s ++ t) → IsLower t
IsLower-suffix [] t h = h
IsLower-suffix (c ∷ s) t h = IsLower-suffix s t (IsLower-tail c (s ++ t) h).1

-- `ends_with` finds exactly the suffixes.
pub ends_with_sound :
    (suffix s : Text) → ends_with suffix s ≡ true → (pre : Text) × (s ≡ pre ++ suffix)
unfolding ends_with
ends_with_sound suffix [] h = ([], sym ((text_eq_iff suffix []).0 h))
ends_with_sound suffix (c ∷ s) h = elim (Bool-cases (text_eq suffix (c ∷ s))) [
  | inl e ↦ ([], sym ((text_eq_iff suffix (c ∷ s)).0 e))
  | inr e ↦ let (pre, k) = ends_with_sound suffix s (rw e at h) in (c ∷ pre, ap (λ r. c ∷ r) k)
]

pub ends_with_self : (s : Text) → ends_with s s ≡ true
unfolding ends_with
ends_with_self [] = refl
ends_with_self (c ∷ s) = rw (text_eq_refl (c ∷ s))

pub ends_with-append : (pre suffix : Text) → ends_with suffix (pre ++ suffix) ≡ true
unfolding ends_with
ends_with-append [] suffix = ends_with_self suffix
ends_with-append (c ∷ pre) suffix = ground (arith, ends_with-append pre suffix)

pub ends_with_iff :
    (suffix s : Text) → (ends_with suffix s ≡ true) ↔ ((pre : Text) × (s ≡ pre ++ suffix))
ends_with_iff suffix s = (ends_with_sound suffix s, λ (pre, e). rw e (ends_with-append pre suffix))

pub len-append : (s t : Text) → len (s ++ t) ≡ len s + len t
unfolding len
len-append [] t = omega arith
len-append (c ∷ s) t = omega (arith, len-append s t)

pub len_pos : (c : ℕ) (s : Text) → 0 < len (c ∷ s)
unfolding len
len_pos c s = ground arith

pub len-nil : len [] ≡ 0
unfolding len
len-nil = refl
