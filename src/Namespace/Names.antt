-- ===== src/Namespace/Names.antt =====
-- `validate_namespace` (crates/pawrly-engine/src/namespace.rs) and `sanitize_segment`
-- (crates/pawrly-engine/src/local.rs): which names a store may have.
pub mod Safe
use pawrly.Prelude.{
  ℕ, ◌==◌, leb, Text, codes, Bool, ◌&&◌, ◌||◌, not, List, [], ◌∷◌, Result, ok, err, map, any,
  if◌then◌else◌, text_eq,
}

-- `char::is_ascii_alphanumeric`.
unfoldable pub is_ascii_alphanumeric : ℕ → Bool
is_ascii_alphanumeric c =
    (leb b'0' c && leb c b'9') || (leb b'A' c && leb c b'Z') || (leb b'a' c && leb c b'z')

-- A character that stays.
unfoldable pub is_clean : ℕ → Bool
unfolding is_ascii_alphanumeric
is_clean c = is_ascii_alphanumeric c || c == b'_' || c == b'-' || c == b'.'

unfoldable pub sanitize_segment : Text → Text
unfolding is_clean
sanitize_segment = map (λ c. if is_clean c then c else b'-')

pub data NamespaceError : Type 0 where
  invalid_namespace : Text → NamespaceError
  reserved_namespace : Text → NamespaceError
  default_namespace : NamespaceError
  cache_init : Text → NamespaceError
  drop_failed : Text → NamespaceError

-- The catalog of the engine and the schemas that it makes itself.
abbrev pub reserved : List Text
reserved = codes "pawrly" ∷ codes "materialized" ∷ codes "system" ∷ codes "information_schema" ∷ []

unfoldable pub validate_namespace : Text → Result (Unit {0}) NamespaceError
unfolding sanitize_segment
validate_namespace ns =
    if not (any is_ascii_alphanumeric ns) || not (text_eq (sanitize_segment ns) ns)
    then err (invalid_namespace ns)
    else if any (text_eq ns) reserved
    then err (reserved_namespace ns)
    else ok tt
