-- ===== src/Redact/Laws.antt =====
-- What a recorded text can show.
use mathlib.Core.Path.{subst}
use pawrly.Prelude.{
  Text, ◌≡◌, ◌≢◌, refl, sym, ap, true, false, Option, none, some, List, [], ◌∷◌, ◌⊎◌, inl, inr, any,
  text_eq, text_eq_iff, Bool-cases, ||-eq-true, trim_start_matches, is_whitespace,
}
use pawrly.Redact.{
  RedactMode, off, literals, tables, Redacted, SqlParser, stmt_keywords, upper_word,
  leading_keyword, tables_only, kinds_on_tables, redact,
}

-- The text is one of the list.
abbrev pub IsOneOf : Text → List Text → Type 0
IsOneOf t [] = ⊥
IsOneOf t (u ∷ us) = (t ≡ u) ⊎ IsOneOf t us

any-IsOneOf : (t : Text) (us : List Text) → any (text_eq t) us ≡ true → IsOneOf t us
any-IsOneOf t [] h = cc
any-IsOneOf t (u ∷ us) h = elim (||-eq-true _ _ h) [
  | inl e ↦ inl ((text_eq_iff t u).0 e)
  | inr k ↦ inr (any-IsOneOf t us k)
]

-- Nothing, or a keyword.
abbrev pub ShowsKeyword : Option Text → Type 0
ShowsKeyword none = Unit
ShowsKeyword (some t) = IsOneOf t stmt_keywords

leading_keyword-ShowsKeyword : (sql : Text) → ShowsKeyword (leading_keyword sql)
unfolding leading_keyword
leading_keyword-ShowsKeyword sql =
    let word = upper_word (trim_start_matches is_whitespace sql) in
    elim (Bool-cases (any (text_eq word) stmt_keywords)) [
      | inl t ↦ rw (t, ShowsKeyword) (any-IsOneOf word stmt_keywords t)
      | inr f ↦ rw (f, ShowsKeyword) tt
    ]

module _ (P : SqlParser) (sql : Text) where
  tables_only-none : P.parse_sql sql ≡ none → tables_only P sql ≡ none
  unfolding tables_only
  tables_only-none h = rw (h, tables_only) refl

  tables_only-some :
      (stmts : List P.Statement)
      → P.parse_sql sql ≡ some stmts
      → tables_only P sql ≡ some (kinds_on_tables P stmts)
  unfolding tables_only
  tables_only-some stmts h = rw (h, tables_only) refl

  -- What is kept of SQL that does not parse.
  kept : Redacted
  kept = record { sql = leading_keyword sql; degraded = true }

  redact-unparsed :
      (mode : RedactMode) → mode ≢ off → P.parse_sql sql ≡ none → redact P sql mode ≡ kept
  unfolding redact kept
  redact-unparsed off n h = absurd (n refl)
  redact-unparsed literals n h = rw (h, redact) (rw (tables_only-none h) refl)
  redact-unparsed tables n h = rw (tables_only-none h, redact) refl

  redact-parsed :
      (mode : RedactMode) (stmts : List P.Statement)
      → P.parse_sql sql ≡ some stmts
      → (redact P sql mode).degraded ≡ false
  unfolding redact
  redact-parsed off stmts h = refl
  redact-parsed literals stmts h = rw (h, redact) refl
  redact-parsed tables stmts h = rw (tables_only-some stmts h, redact) refl

-- In every mode that redacts, SQL that does not parse is not recorded: what is kept of it is nothing or
-- one of the known keywords, and the record says that it was degraded; of SQL that parses, the record says
-- that it was not.
pub redact-ShowsKeyword :
    (P : SqlParser) (sql : Text) (mode : RedactMode)
    → mode ≢ off
    → ((P.parse_sql sql ≡ none)
        → ShowsKeyword (redact P sql mode).sql × ((redact P sql mode).degraded ≡ true))
      × ((stmts : List P.Statement)
          → P.parse_sql sql ≡ some stmts
          → (redact P sql mode).degraded ≡ false)
unfolding kept
redact-ShowsKeyword P sql mode n = (
  λ h.
      let same = redact-unparsed P sql mode n h in
      (
        subst (λ r. ShowsKeyword r.sql) (sym same) (leading_keyword-ShowsKeyword sql),
        ap (λ r. r.degraded) same,
      ),
  redact-parsed P sql mode,
)
