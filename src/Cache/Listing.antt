-- ===== src/Cache/Listing.antt =====
-- What a reader may list of the cache: `namespace_sources`, `namespace_tables`, `namespace_path` and
-- `list` of crates/pawrly-engine/src/cache.rs, with `CacheMode` and `CacheEntryInfo` of
-- crates/pawrly-core/src/cache.rs.
pub mod Found
pub mod Catalog
use pawrly.Prelude.{
  text_leb, ℕ, Text, ◌&&◌, Option, none, some, List, [], ◌∷◌, map, retain, find, if◌then◌else◌,
  text_eq,
}
use pawrly.Cache.Types.{
  TableName, CachePolicy, no_cache, ttl, refresh, cron, append, is_materialized, is_for, FilePath,
  ManifestEntry,
}
use pawrly.Cache.Disk.{exists}
use pawrly.Cache.Manager.{Session, Registered, registered, entry_key}

pub data CacheMode : Type 0 where
  none_mode ttl_mode refresh_mode cron_mode append_mode pinned_mode : CacheMode

unfoldable pub mode_of : CachePolicy → CacheMode
mode_of no_cache = none_mode
mode_of (ttl d) = ttl_mode
mode_of (refresh every) = refresh_mode
mode_of (cron c) = cron_mode
mode_of (append c) = append_mode

pub record CacheEntryInfo : Type 0 where
  pub name : TableName
  pub mode : CacheMode
  pub written_at : ℕ
  pub expires_at : Option ℕ
  pub row_count : ℕ
  pub size_bytes : ℕ
  pub file_count : ℕ

unfoldable pub insert : Text → List Text → List Text
unfolding text_leb
insert a [] = a ∷ []
insert a (b ∷ bs) = let rest = insert a bs in if text_leb a b then a ∷ b ∷ bs else b ∷ rest

unfoldable pub sort : List Text → List Text
unfolding insert
sort [] = []
sort (a ∷ rest) = insert a (sort rest)

-- `Vec::dedup`, from the end: of equal neighbours one stays.
unfoldable pub push_new : Text → List Text → List Text
push_new a [] = a ∷ []
push_new a (b ∷ bs) = if text_eq a b then b ∷ bs else a ∷ b ∷ bs

unfoldable pub dedup : List Text → List Text
unfolding push_new
dedup [] = []
dedup (a ∷ rest) = push_new a (dedup rest)

abbrev pub path_of : Option ManifestEntry → Option FilePath
path_of none = none
path_of (some e) = some e.file_path

module _ {Row Query : Type 0} where
  unfoldable pub namespace_sources : Session Row Query → List Text
  unfolding sort dedup
  namespace_sources s =
      dedup (sort (map (λ e. e.source) (retain (λ e. exists e.file_path s.disk) s.memory.entries)))

  unfoldable pub namespace_tables : Text → Session Row Query → List Text
  unfolding sort dedup
  namespace_tables source s = dedup (
      sort (
        map (λ e. e.table)
          (retain (λ e. text_eq e.source source && exists e.file_path s.disk) s.memory.entries)))

  unfoldable pub namespace_path : Text → Text → Session Row Query → Option FilePath
  namespace_path source table s = path_of (
      find (λ e. is_for (record { schema = source; table = table }) e && exists e.file_path s.disk)
        s.memory.entries)

  registered_mode : Option (Registered Row Query) → CacheMode
  unfolding mode_of
  registered_mode none = ttl_mode
  registered_mode (some r) = mode_of r.policy

  -- A materialized entry is pinned; a copy has the mode of its policy.
  unfoldable pub entry_info : Session Row Query → ManifestEntry → CacheEntryInfo
  unfolding registered_mode
  entry_info s e = record {
    name = entry_key e;
    mode =
        if is_materialized e.origin
        then pinned_mode
        else registered_mode (registered (entry_key e) s.inner);
    written_at = e.written_at;
    expires_at = e.expires_at;
    row_count = e.row_count;
    size_bytes = e.size_bytes;
    file_count = 1;
  }

  unfoldable pub list : Session Row Query → List CacheEntryInfo
  unfolding entry_info
  list s = map (entry_info s) s.memory.entries
