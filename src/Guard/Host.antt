-- ===== src/Guard/Host.antt =====
-- `HostPattern` of crates/pawrly-sources/http/src/guard.rs: an exact host or a `*.suffix`.
pub mod Laws
use pawrly.Prelude.{
  ℕ, ◌==◌, Text, codes, Bool, true, false, ◌&&◌, ◌||◌, Option, none, some, List, [], ◌∷◌, Result,
  ok, err, if◌then◌else◌, is_empty, any, ltb, text_eq, eq_ignore_ascii_case, to_ascii_lowercase,
  trim, trim_end_matches, strip_prefix, ends_with, contains_char, len,
}

pub data HostPattern : Type 0 where
  exact : Text → HostPattern
  suffix : Text → HostPattern

-- The messages of `parse`.
pub data PatternError : Type 0 where
  wildcard_needs_suffix : PatternError
  spans_public_suffix : Text → PatternError
  expected_hostname : PatternError

abbrev pub is_dot : ℕ → Bool
is_dot c = c == b'.'

-- The public suffix list, the crate `psl`, is a parameter.
module _ (suffix_str : Text → Option Text) where
  abbrev pub is_public_suffix : Text → Bool
  is_public_suffix rest = elim (suffix_str rest) [
    | none ↦ false
    | some suf ↦ eq_ignore_ascii_case suf rest
  ]

  -- What follows `*.`.
  parse_wildcard : Text → Result HostPattern PatternError
  parse_wildcard rest =
      if is_empty rest
      then err wildcard_needs_suffix
      else if is_public_suffix rest
      then err (spans_public_suffix rest)
      else ok (suffix (b'.' ∷ rest))

  parse_exact : Text → Result HostPattern PatternError
  parse_exact s = if is_empty s || contains_char b'*' s then err expected_hostname else ok (exact s)

  unfoldable pub parse : Text → Result HostPattern PatternError
  unfolding parse_wildcard parse_exact
  parse s =
      let s' = to_ascii_lowercase (trim s) in
      elim (strip_prefix (codes "*.") s') [
        | some rest ↦ parse_wildcard (trim_end_matches is_dot rest)
        | none ↦ parse_exact (trim_end_matches is_dot s')
      ]

pub is_wildcard : HostPattern → Bool
is_wildcard (exact h) = false
is_wildcard (suffix s) = true

-- A host as `matches` compares it.
unfoldable pub normal_host : Text → Text
normal_host host = to_ascii_lowercase (trim_end_matches is_dot host)

unfoldable pub matches : HostPattern → Text → Bool
matches (exact h) host = text_eq (normal_host host) h
matches (suffix s) host = ltb (len s) (len (normal_host host)) && ends_with s (normal_host host)

-- `allowed.iter().any(|p| p.matches(h))`
abbrev pub any_matches : List HostPattern → Text → Bool
any_matches allowed host = any (λ p. matches p host) allowed
