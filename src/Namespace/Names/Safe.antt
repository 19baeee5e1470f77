-- ===== src/Namespace/Names/Safe.antt =====
-- Which names are accepted, and why one cannot lead out of the storage root.
use mathlib.Core.Bool.{false≢true}
use pawrly.Prelude.{
  ℕ, ◌==◌, ==_iff, Text, codes, ◌≡◌, ◌≢◌, refl, sym, ap, ◌∙◌, ◌↔◌, Bool, true, false, ◌||◌, not,
  List, [], ◌∷◌, Result, ok, err, any, All, if◌then◌else◌, text_eq, text_eq_iff, contains_char,
  arith, Bool-cases, inl, inr, &&-eq-true, false_of_not,
}
use pawrly.Namespace.Names.{
  NamespaceError, invalid_namespace, reserved_namespace, is_ascii_alphanumeric, is_clean,
  sanitize_segment, reserved, validate_namespace,
}

-- A character that a name may have.
abbrev pub IsClean : ℕ → Type 0
IsClean c = is_clean c ≡ true

clean_dash : is_clean b'-' ≡ true
unfolding is_clean is_ascii_alphanumeric
clean_dash = refl

-- What sanitising leaves is clean.
clean_of_same : (c : ℕ) → (if is_clean c then c else b'-') ≡ c → is_clean c ≡ true
clean_of_same c e = elim (Bool-cases (is_clean c)) [
  | inl t ↦ t
  | inr t ↦
      let dash : b'-' ≡ c = ap (λ (b : Bool). if b then c else b'-') (sym t) ∙ e in
      ap is_clean (sym dash) ∙ clean_dash
]

pub sanitize_segment_iff : (ns : Text) → (text_eq (sanitize_segment ns) ns ≡ true) ↔ All IsClean ns
unfolding sanitize_segment text_eq
sanitize_segment_iff [] = (λ h. tt, λ h. refl)
sanitize_segment_iff (c ∷ s) =
    let (f, g) = sanitize_segment_iff s in
    let (to, from) = ==_iff (if is_clean c then c else b'-') c in
    (
      λ h. let (a, b) = &&-eq-true _ _ h in (clean_of_same c (to a), f b),
      λ (t, h). rw (from (ap (λ (b : Bool). if b then c else b'-') t)) (g h),
    )

reserved_iff :
    (ns : Text) (names : List Text) → (any (text_eq ns) names ≡ false) ↔ All (λ r. ns ≢ r) names
reserved_iff ns [] = (λ h. tt, λ h. refl)
reserved_iff ns (r ∷ names) =
    let (f, g) = reserved_iff ns names in
    let (to, from) = text_eq_iff ns r in
    (
      λ h. (λ e. ground (arith, from e), f (ground arith)),
      λ (n, h). ground (arith, g h, false_of_not (text_eq ns r) (λ t. n (to t))),
    )

abbrev decided : (a b c : Bool) → NamespaceError → NamespaceError → Result (Unit {0}) NamespaceError
decided a b c e f = if not a || not b then err e else if c then err f else ok tt

tests :
    (a b c : Bool) (e f : NamespaceError)
    → (decided a b c e f ≡ ok tt) ↔ ((a ≡ true) × (b ≡ true) × (c ≡ false))
tests true true true e f = (λ h. cc, λ (a, b, c). cc)
tests true true false e f = (λ h. (refl, refl, refl), λ h. refl)
tests true false c e f = (λ h. cc, λ (a, b, c). cc)
tests false b c e f = (λ h. cc, λ (a, b, c). cc)

-- A name is accepted exactly if it has a letter or a digit, is all ASCII letters, digits, `_`, `-` and
-- `.`, and is none of the reserved names.
pub validate_namespace_iff :
    (ns : Text)
    → (validate_namespace ns ≡ ok tt)
      ↔ ((any is_ascii_alphanumeric ns ≡ true) × All IsClean ns × All (λ r. ns ≢ r) reserved)
unfolding validate_namespace
validate_namespace_iff ns =
    let (s, s') = sanitize_segment_iff ns in
    let (r, r') = reserved_iff ns reserved in
    let (f, g) =
      tests (any is_ascii_alphanumeric ns) (text_eq (sanitize_segment ns) ns)
        (any (text_eq ns) reserved) (invalid_namespace ns) (reserved_namespace ns) in
    (λ h. let (a, b, c) = f h in (a, s b, r c), λ (a, b, c). g (a, s' b, r' c))

-- A single component of a path, that stays in the directory it is joined to.
pub record IsInside (ns : Text) : Type 0 where
  pub no_slash : contains_char b'/' ns ≡ false
  pub no_backslash : contains_char b'\\' ns ≡ false
  pub nonempty : ns ≢ []
  pub not_dot : ns ≢ codes "."
  pub not_dot_dot : ns ≢ codes ".."

lacks : (d : ℕ) (ns : Text) → is_clean d ≡ false → All IsClean ns → contains_char d ns ≡ false
unfolding contains_char
lacks d [] n h = refl
lacks d (c ∷ s) n (t, h) =
    rw (false_of_not (d == c) (λ e. false≢true (sym n ∙ ap is_clean ((==_iff d c).0 e) ∙ t)))
      (lacks d s n h)

-- An accepted name is a single component of a path: it has no separator, and is neither empty nor `.`
-- nor `..`.
pub validate_namespace-IsInside : (ns : Text) → validate_namespace ns ≡ ok tt → IsInside ns
unfolding is_clean is_ascii_alphanumeric
validate_namespace-IsInside ns h =
    let (some_letter, clean, _) = (validate_namespace_iff ns).0 h in
    record {
      no_slash = lacks b'/' ns refl clean;
      no_backslash = lacks b'\\' ns refl clean;
      nonempty = λ e. false≢true (ap (any is_ascii_alphanumeric) (sym e) ∙ some_letter);
      not_dot = λ e. false≢true (ap (any is_ascii_alphanumeric) (sym e) ∙ some_letter);
      not_dot_dot = λ e. false≢true (ap (any is_ascii_alphanumeric) (sym e) ∙ some_letter);
    }
