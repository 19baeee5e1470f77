-- ===== src/Cache/Provider.antt =====
-- `CachedTableProvider` and `CacheManager::refresh` of crates/pawrly-engine/src/cache.rs: reads through
-- the cache. The projection of columns, which every branch applies to its batches last, is left out.
pub mod Reads
use pawrly.Prelude.{ℕ, Text, Option, none, some, List, Result, ok, err}
use pawrly.Cache.Types.{TableName, CachePolicy, no_cache, ManifestEntry}
use pawrly.Cache.Disk.{Io, IoError, read_parquet}
use pawrly.Cache.Manager.{
  Session, Provider, Registered, fresh, quarantine, write_through, register_inner, registered,
}

-- A table as the catalog holds it.
pub data Table (Row Query : Type 0) : Type 0 where
  live : Provider Row Query → Table Row Query
  cached : Provider Row Query → TableName → CachePolicy → Table Row Query

pub data EngineError : Type 0 where
  unknown_table : TableName → EngineError
  scan_failed : Text → EngineError
  write_failed : IoError → EngineError

pub record RefreshOutcome : Type 0 where
  pub table : TableName
  pub rows_written : ℕ
  pub size_bytes : ℕ
  pub expires_at : Option ℕ

module _ {Row Query : Type 0} where
  unfoldable pub wrap :
      Provider Row Query
      → TableName
      → CachePolicy
      → Session Row Query
      → Table Row Query × Session Row Query
  wrap inner name no_cache s = (live inner, s)
  wrap inner name policy s = (
    cached inner name policy,
    register_inner name (record { provider = inner; policy = policy }) s,
  )

  -- A miss: the source's answer is returned, and stored if that succeeds.
  unfoldable pub fetched :
      Io
      → ℕ
      → TableName
      → CachePolicy
      → Session Row Query
      → Result (List (List Row)) Text
      → Result (List (List Row)) Text × Session Row Query
  fetched io now name policy s (err e) = (err e, s)
  fetched io now name policy s (ok batches) =
      (ok batches, (write_through io now name batches policy s).1)

  unfoldable pub fetch :
      Io
      → ℕ
      → Query
      → Provider Row Query
      → TableName
      → CachePolicy
      → Session Row Query
      → Result (List (List Row)) Text × Session Row Query
  unfolding fetched
  fetch io now q inner name policy s = fetched io now name policy s (inner.scan q)

  -- A fresh entry: its file is the answer, or is corrupt and goes aside.
  unfoldable pub scan_entry :
      Io
      → Io
      → ℕ
      → Query
      → Provider Row Query
      → TableName
      → CachePolicy
      → Session Row Query
      → ManifestEntry
      → Option (List (List Row))
      → Result (List (List Row)) Text × Session Row Query
  unfolding fetch
  scan_entry io io' later q inner name policy s entry (some batches) = (ok batches, s)
  scan_entry io io' later q inner name policy s entry none =
      fetch io' later q inner name policy (quarantine io name entry s)

  -- `CachedTableProvider::scan` at the instant `now`, with a write at the instant `later`. The first
  -- `Io` is that of a quarantine, the second that of the write.
  unfoldable pub scan :
      Io
      → Io
      → ℕ
      → ℕ
      → Query
      → Provider Row Query
      → TableName
      → CachePolicy
      → Session Row Query
      → Result (List (List Row)) Text × Session Row Query
  unfolding fetch scan_entry
  scan io io' now later q inner name policy s = elim (fresh now name s) [
    | none ↦ fetch io' later q inner name policy s
    | some entry ↦
        scan_entry io io' later q inner name policy s entry (read_parquet entry.file_path s.disk)
  ]

  unfoldable pub store_refreshed :
      TableName
      → Result ManifestEntry IoError × Session Row Query
      → Result RefreshOutcome EngineError × Session Row Query
  store_refreshed key (err e, s) = (err (write_failed e), s)
  store_refreshed key (ok entry, s) = (
    ok (record {
      table = key;
      rows_written = entry.row_count;
      size_bytes = entry.size_bytes;
      expires_at = entry.expires_at;
    }),
    s,
  )

  unfoldable pub store_scanned :
      Io
      → ℕ
      → TableName
      → CachePolicy
      → Session Row Query
      → Result (List (List Row)) Text
      → Result RefreshOutcome EngineError × Session Row Query
  unfolding store_refreshed
  store_scanned io now key policy s (err e) = (err (scan_failed e), s)
  store_scanned io now key policy s (ok batches) =
      store_refreshed key (write_through io now key batches policy s)

  unfoldable pub refresh_from :
      Io
      → ℕ
      → TableName
      → Session Row Query
      → Option (Registered Row Query)
      → Result RefreshOutcome EngineError × Session Row Query
  unfolding store_scanned
  refresh_from io now key s none = (err (unknown_table key), s)
  refresh_from io now key s (some reg) =
      store_scanned io now key reg.policy s (reg.provider.scan reg.provider.everything)

  -- `CacheManager::refresh`: a full scan of the registered source, whatever the age of the entry.
  unfoldable pub refresh :
      Io → ℕ → TableName → Session Row Query → Result RefreshOutcome EngineError × Session Row Query
  unfolding refresh_from
  refresh io now key s = refresh_from io now key s (registered key s.inner)
