-- ===== src/Redact.antt =====
-- The redaction of the SQL that is recorded (crates/pawrly-engine/src/redact.rs). The statements, and what
-- is seen and replaced in them, are those of the crate sqlparser.
mod Laws
mod Tests
use pawrly.Prelude.{
  ◌-◌, leb, Text, codes, Bool, true, false, ◌&&◌, Option, none, some, List, [], ◌∷◌, ◌++◌, map, any,
  if◌then◌else◌, text_eq, trim_start_matches, is_whitespace, join_texts, put,
}

pub data RedactMode : Type 0 where
  off literals tables : RedactMode

pub record Redacted : Type 0 where
  pub sql : Option Text
  pub degraded : Bool

pub data Form : Type 0 where
  query explain insert other_form : Form

-- What is used of the parser: the statements, the form of one, the relations that are visited in it, the
-- statement with an identifier in place of each value, and its text.
pub record SqlParser : Type 1 where
  pub Statement : Type 0
  pub parse_sql : Text → Option (List Statement)
  pub form : Statement → Form
  pub relations : Statement → List Text
  pub replace_values : (identifier : Text) → Statement → Statement
  pub print : Statement → Text

abbrev sentinel : Text
sentinel = codes "$REDACTED"

abbrev pub stmt_keywords : List Text
stmt_keywords =
    codes "SELECT"
    ∷ codes "WITH"
    ∷ codes "INSERT"
    ∷ codes "UPDATE"
    ∷ codes "DELETE"
    ∷ codes "CREATE"
    ∷ codes "DROP"
    ∷ codes "ALTER"
    ∷ codes "EXPLAIN"
    ∷ codes "SHOW"
    ∷ codes "COPY"
    ∷ codes "MERGE"
    ∷ codes "CALL"
    ∷ codes "SET"
    ∷ codes "PRAGMA"
    ∷ codes "DESCRIBE"
    ∷ []

-- The ASCII letters in front, in upper case.
unfoldable pub upper_word : Text → Text
upper_word [] = []
upper_word (c ∷ s) =
    let rest = upper_word s in
    if leb b'A' c && leb c b'Z'
    then c ∷ rest
    else if leb b'a' c && leb c b'z'
    then (c - 32) ∷ rest
    else []

unfoldable pub leading_keyword : Text → Option Text
unfolding upper_word trim_start_matches is_whitespace text_eq
leading_keyword sql =
    let word = upper_word (trim_start_matches is_whitespace sql) in
    if any (text_eq word) stmt_keywords then some word else none

unfoldable pub redact_literals : (P : SqlParser) → List P.Statement → Text
unfolding join_texts
redact_literals P stmts =
    join_texts (codes "; ") (map (λ s. P.print (P.replace_values sentinel s)) stmts)

unfoldable pub stmt_kind : Form → Text
stmt_kind query = codes "SELECT"
stmt_kind explain = codes "EXPLAIN"
stmt_kind insert = codes "INSERT"
stmt_kind other_form = codes "STATEMENT"

-- The names of a set, which are in order: the keys of a map.
abbrev Names : Type 0
Names = List (Text × Bool)

unfoldable pub insert_names : List Text → Names → Names
unfolding put
insert_names [] names = names
insert_names (t ∷ ts) names = insert_names ts (put t true names)

unfoldable pub tables_of : (P : SqlParser) → List P.Statement → Names → Names
unfolding insert_names
tables_of P [] names = names
tables_of P (s ∷ stmts) names = tables_of P stmts (insert_names (P.relations s) names)

abbrev on_tables : Text → Names → Text
on_tables kind [] = kind
on_tables kind (n ∷ names) =
    kind ++ codes " on " ++ join_texts (codes ", ") (map (λ e. e.0) (n ∷ names))

-- The text of parsed statements.
unfoldable pub kinds_on_tables : (P : SqlParser) → List P.Statement → Text
unfolding stmt_kind tables_of join_texts
kinds_on_tables P stmts =
    on_tables (join_texts (codes ",") (map (λ s. stmt_kind (P.form s)) stmts))
      (tables_of P stmts [])

unfoldable pub tables_only : (P : SqlParser) → Text → Option Text
unfolding kinds_on_tables
tables_only P sql = elim (P.parse_sql sql) [
  | none ↦ none
  | some stmts ↦ some (kinds_on_tables P stmts)
]

unfoldable pub redact : (P : SqlParser) → Text → RedactMode → Redacted
unfolding redact_literals tables_only leading_keyword
redact P sql off = record { sql = some sql; degraded = false }
redact P sql literals = elim (P.parse_sql sql) [
  | some stmts ↦ record { sql = some (redact_literals P stmts); degraded = false }
  | none ↦ record {
    sql = elim (tables_only P sql) [ some text ↦ some text | none ↦ leading_keyword sql ];
    degraded = true;
  }
]
redact P sql tables = elim (tables_only P sql) [
  | some text ↦ record { sql = some text; degraded = false }
  | none ↦ record { sql = leading_keyword sql; degraded = true }
]
