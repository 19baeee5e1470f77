-- ===== src/Guard/Host/Laws.antt =====
-- What a pattern matches, and what `HostPattern::parse` accepts.
use pawrly.Prelude.{
  ◌<◌, Text, codes, ◌≡◌, ◌≢◌, refl, ap, ◌↔◌, inl, inr, true, false, Option, [], ◌∷◌, ◌++◌, ok,
  ltb_iff, len, len-append, len_pos, to_ascii_lowercase, trim, trim_end_matches, strip_prefix,
  strip_prefix_iff, ends_with_sound, ends_with-append, contains_char, IsLower,
  IsLower-to_ascii_lowercase, IsLower-suffix, IsLower-trim_end_matches, trim_end_matches_idem,
  Option-cases, &&-eq-true, arith, text_eq_iff,
}
use pawrly.Guard.Host.{
  HostPattern, exact, suffix, is_dot, is_public_suffix, parse_wildcard, parse_exact, parse,
  is_wildcard, normal_host, matches,
}

-- What a host pattern means: the host itself, or a host with something in front of the suffix.
abbrev pub Matches : HostPattern → Text → Type 0
Matches (exact h) host = normal_host host ≡ h
Matches (suffix s) host = (label : Text) × (label ≢ []) × (normal_host host ≡ label ++ s)

matches-suffix_sound : (s host : Text) → matches (suffix s) host ≡ true → Matches (suffix s) host
unfolding matches
matches-suffix_sound s host h =
    let (long, ends) = &&-eq-true _ _ h in
    let (label, e) = ends_with_sound s (normal_host host) ends in
    (label, not_empty label e ((ltb_iff _ _).0 long), e)
  where
    not_empty :
        (label : Text) → normal_host host ≡ label ++ s → len s < len (normal_host host) → label ≢ []
    not_empty [] e lt n = absurd (omega (arith, ap len e))
    not_empty (c ∷ label) e lt n = cc

matches-suffix_complete :
    (s host label : Text)
    → label ≢ []
    → normal_host host ≡ label ++ s
    → matches (suffix s) host ≡ true
unfolding matches
matches-suffix_complete s host [] n e = absurd (n refl)
matches-suffix_complete s host (c ∷ label) n e =
    rw (e, ends_with-append (c ∷ label) s, (ltb_iff _ _).1 longer)
  where
    longer : len s < len ((c ∷ label) ++ s)
    longer = omega (arith, len-append (c ∷ label) s, len_pos c label)

-- `matches` decides the meaning of the pattern: an exact pattern takes the host alone, and a
-- wildcard takes exactly the hosts with a nonempty label before its suffix.
pub matches_iff : (p : HostPattern) (host : Text) → (matches p host ≡ true) ↔ Matches p host
matches_iff (exact h) host = unfold matches in text_eq_iff (normal_host host) h
matches_iff (suffix s) host =
    (matches-suffix_sound s host, λ (label, n, e). matches-suffix_complete s host label n e)

-- What `parse` has established of a pattern: the entry is trimmed, in lower case, with no dot at its
-- end; an exact host has no `*`, and a wildcard's domain is not a public suffix.
module _ (suffix_str : Text → Option Text) where
  abbrev pub IsCanonical : HostPattern → Type 0
  IsCanonical (exact h) =
      (h ≢ []) × IsLower h × (trim_end_matches is_dot h ≡ h) × (contains_char b'*' h ≡ false)
  IsCanonical (suffix s) =
      (rest : Text) × (s ≡ b'.' ∷ rest)
      × (rest ≢ [])
      × IsLower rest
      × (trim_end_matches is_dot rest ≡ rest)
      × (is_public_suffix suffix_str rest ≡ false)

  parse_wildcard-IsCanonical :
      (rest : Text) (p : HostPattern)
      → IsLower rest
      → trim_end_matches is_dot rest ≡ rest
      → parse_wildcard suffix_str rest ≡ ok p
      → IsCanonical p × (is_wildcard p ≡ true)
  unfolding parse_wildcard is_wildcard
  parse_wildcard-IsCanonical rest (exact h) low dots e = ground arith
  parse_wildcard-IsCanonical rest (suffix s) low dots e =
      ((rest, ground arith, ground arith, low, dots, ground arith), refl)

  parse_exact-IsCanonical :
      (h : Text) (p : HostPattern)
      → IsLower h
      → trim_end_matches is_dot h ≡ h
      → parse_exact suffix_str h ≡ ok p
      → IsCanonical p × (is_wildcard p ≡ false)
  unfolding parse_exact is_wildcard
  parse_exact-IsCanonical h (exact k) low dots e =
      let same : h ≡ k = ground arith in
      ((ground arith, rw (← same) low, rw (← same) dots, rw (← same) (ground arith)), refl)
  parse_exact-IsCanonical h (suffix s) low dots e = ground arith

  -- The pattern that an entry gives is canonical, and it is a wildcard exactly when the trimmed entry
  -- begins with `*.`.
  pub parse-IsCanonical :
      (s : Text) (p : HostPattern)
      → parse suffix_str s ≡ ok p
      → IsCanonical p
        × ((is_wildcard p ≡ true)
            ↔ ((rest : Text) × (to_ascii_lowercase (trim s) ≡ codes "*." ++ rest)))
  unfolding parse
  parse-IsCanonical s p e =
      elim (Option-cases (strip_prefix (codes "*.") (to_ascii_lowercase (trim s)))) [
        | inl n ↦
            let low = IsLower-to_ascii_lowercase (trim s) in
            let (canonical, w) =
              parse_exact-IsCanonical _ p (IsLower-trim_end_matches is_dot _ low)
                (trim_end_matches_idem is_dot _) (rw (n, parse) at e) in
            (canonical, (λ h. cc, λ (rest, f). cc ((strip_prefix_iff (codes "*.") _ rest).1 f)))
        | inr (rest, h) ↦
            let f = (strip_prefix_iff (codes "*.") _ rest).0 h in
            let low =
              IsLower-suffix (codes "*.") rest (rw f at (IsLower-to_ascii_lowercase (trim s))) in
            let (canonical, w) =
              parse_wildcard-IsCanonical _ p (IsLower-trim_end_matches is_dot _ low)
                (trim_end_matches_idem is_dot _) (rw (h, parse) at e) in
            (canonical, (λ _. (rest, f), λ _. w))
      ]
