-- ===== src/Redact/Tests.antt =====
-- A malformed statement.
use pawrly.Prelude.{Text, codes, ◌≡◌, ◌≢◌, refl, true, false, Option, none, some, text_eq, List, []}
use pawrly.Redact.{off, literals, other_form, SqlParser, leading_keyword, redact}
use pawrly.Redact.Laws.{ShowsKeyword, redact-ShowsKeyword}

-- A parser that reads nothing.
abbrev no_sql : SqlParser
no_sql = record {
  Statement = Text;
  parse_sql = λ s. none;
  form = λ s. other_form;
  relations = λ s. [];
  replace_values = λ i s. s;
  print = λ s. s;
}

abbrev malformed : Text
malformed = codes " Select 'secret' @@"

literals_redact : literals ≢ off
literals_redact e = cc

redact-ShowsKeyword_example :
    (◌≡◌ {A = Option (List Text)} none none
      → ShowsKeyword (redact no_sql malformed literals).sql
        × ((redact no_sql malformed literals).degraded ≡ true))
    × ((stmts : List Text)
        → ◌≡◌ {A = Option (List Text)} none (some stmts)
        → (redact no_sql malformed literals).degraded ≡ false)
redact-ShowsKeyword_example = redact-ShowsKeyword no_sql malformed literals literals_redact

redact_run : (redact no_sql malformed literals).sql ≡ some (codes "SELECT")
unfolding redact text_eq leading_keyword
redact_run = refl
