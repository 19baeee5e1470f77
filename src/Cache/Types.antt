-- ===== src/Cache/Types.antt =====
-- The types of the cache: `CachePolicy` and `CacheMode` of crates/pawrly-core/src/cache.rs, `TableName`
-- of crates/pawrly-core/src/schema.rs, `MaterializeSpec` of crates/pawrly-core/src/service.rs, and
-- `Origin`, `ManifestEntry` and `Manifest` of crates/pawrly-engine/src/cache.rs.
use pawrly.Prelude.{
  ℕ, ◌+◌, ltb, leb, Text, Bool, true, false, ◌&&◌, Option, none, some, List, if◌then◌else◌, text_eq,
}

pub record TableName : Type 0 where
  pub schema : Text
  pub table : Text

-- Instants and durations are numbers of milliseconds.
pub data CachePolicy : Type 0 where
  no_cache : CachePolicy
  ttl : ℕ → CachePolicy
  refresh : ℕ → CachePolicy
  cron : Text → CachePolicy
  append : Text → CachePolicy

pub data MaterializeFormat : Type 0 where
  csv parquet json : MaterializeFormat

pub data MaterializeSpec : Type 0 where
  query : Text → List (Text × Text) → MaterializeSpec
  file : Text → Option MaterializeFormat → MaterializeSpec
  url : Text → Option MaterializeFormat → MaterializeSpec
  inline : List ℕ → MaterializeFormat → MaterializeSpec

pub data Origin : Type 0 where
  cache_copy : Origin
  materialized : MaterializeSpec → Origin

abbrev pub is_materialized : Origin → Bool
is_materialized cache_copy = false
is_materialized (materialized spec) = true

-- A path below the root of the store, by its components.
abbrev pub FilePath : Type 0
FilePath = List Text

pub record ManifestEntry : Type 0 where
  pub source : Text
  pub table : Text
  pub written_at : ℕ
  pub expires_at : Option ℕ
  pub row_count : ℕ
  pub size_bytes : ℕ
  pub file_path : FilePath
  pub origin : Origin

pub record Manifest : Type 0 where
  pub version : ℕ
  pub entries : List ManifestEntry

-- `e.source == key.schema && e.table == key.table`
abbrev pub is_for : TableName → ManifestEntry → Bool
is_for key e = text_eq e.source key.schema && text_eq e.table key.table

-- `expires_at.is_none_or(|exp| now < exp)`
abbrev pub unexpired : ℕ → ManifestEntry → Bool
unexpired now e = elim e.expires_at [ none ↦ true | some exp ↦ ltb now exp ]

-- `chrono::Duration::from_std` fails above `i64::MAX` milliseconds.
abbrev pub max_duration : ℕ
max_duration = 9223372036854775807

-- `now + d` panics past the last instant of `DateTime`; the sum is taken to be within its range.
unfoldable pub ttl_expiry : CachePolicy → ℕ → Option ℕ
ttl_expiry (ttl d) now = if leb d max_duration then some (now + d) else none
ttl_expiry _ now = none
