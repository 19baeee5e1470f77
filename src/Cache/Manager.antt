-- ===== src/Cache/Manager.antt =====
-- `CacheManager` of crates/pawrly-engine/src/cache.rs: the state of one process, and the operations
-- on the manifest and the data files.
pub mod Locked
pub mod Keys
pub mod WellFormed
pub mod Fresh
use pawrly.Prelude.{
  ℕ, Text, codes, Bool, true, false, ◌&&◌, not, Option, none, some, List, [], ◌∷◌, ◌++◌, Result, ok,
  err, if◌then◌else◌, text_eq, find, retain,
}
use pawrly.Cache.Types.{
  TableName, CachePolicy, MaterializeSpec, Origin, cache_copy, materialized, is_materialized,
  FilePath, ManifestEntry, Manifest, is_for, unexpired, ttl_expiry,
}
use pawrly.Cache.Disk.{
  Disk, Io, IoError, lock_failed, path_eq, read_manifest_disk, write_manifest_disk, remove_file,
  place_file, atomic_write_parquet, file_at, without_file, num_rows,
}

-- What a scan of a source answers, for the filters and the limit that are pushed down to it. `Query`
-- stands for those, of the crate `datafusion`, with the scan that asks for everything.
pub record Provider (Row Query : Type 0) : Type 0 where
  pub scan : Query → Result (List (List Row)) Text
  pub everything : Query

pub record Registered (Row Query : Type 0) : Type 0 where
  pub provider : Provider Row Query
  pub policy : CachePolicy

-- One process and the store that it shares: the disk, its own copy of the manifest, and the live
-- providers by table.
pub record Session (Row Query : Type 0) : Type 0 where
  pub disk : Disk Row
  pub memory : Manifest
  pub inner : List (TableName × Registered Row Query)

abbrev pub materialized_schema : Text
materialized_schema = codes "materialized"

-- `root/data/<schema>/<table>/part-000000.parquet`
abbrev pub data_path : TableName → FilePath
data_path key = codes "data" ∷ key.schema ∷ key.table ∷ codes "part-000000.parquet" ∷ []

abbrev pub entry_key : ManifestEntry → TableName
entry_key e = record { schema = e.source; table = e.table }

-- Take the first entry that passes the test out of the list: `position` and `remove`.
unfoldable pub take_first :
    (ManifestEntry → Bool) → List ManifestEntry → Option ManifestEntry × List ManifestEntry
take_first p [] = (none, [])
take_first p (e ∷ es) =
    let (found, rest) = take_first p es in if p e then (some e, es) else (found, e ∷ rest)

-- The changes of the manifest.
unfoldable pub insert_entry : ManifestEntry → Manifest → Manifest
insert_entry entry m = record m {
  entries = retain (λ e. not (is_for (entry_key entry) e)) m.entries ++ entry ∷ [];
}

unfoldable pub remove_first : (ManifestEntry → Bool) → Manifest → Option ManifestEntry × Manifest
remove_first p m =
    let (found, rest) = take_first p m.entries in (found, record m { entries = rest })

-- `Path::file_name`.
file_name : FilePath → Option Text
file_name [] = none
file_name (c ∷ []) = if text_eq c (codes "..") then none else some c
file_name (c ∷ d ∷ p) = file_name (d ∷ p)

-- The file goes to `corrupt/` under a new name, or is deleted.
unfoldable pub move_aside : {Row : Type 0} → Io → TableName → FilePath → Disk Row → Disk Row
unfolding file_name
move_aside io key p d = elim (file_at p d.files) [
  | none ↦ d
  | some c ↦ elim (file_name p) [
    | none ↦ remove_file io p d
    | some name ↦
        if io.rename
        then place_file
            (codes "corrupt" ∷ key.schema ∷ key.table ∷ (io.uuid ++ codes "-" ++ name) ∷ []) c
            (record d { files = without_file p d.files })
        else remove_file io p d
  ]
]

-- The entries that the two writes make; the length is filled in when the file is there.
abbrev pub cached_entry : ℕ → TableName → ℕ → CachePolicy → ManifestEntry
cached_entry now key rows policy = record {
  source = key.schema;
  table = key.table;
  written_at = now;
  expires_at = ttl_expiry policy now;
  row_count = rows;
  size_bytes = 0;
  file_path = data_path key;
  origin = cache_copy;
}

abbrev pub materialized_entry : ℕ → Text → ℕ → MaterializeSpec → ManifestEntry
materialized_entry now name rows spec = record {
  source = materialized_schema;
  table = name;
  written_at = now;
  expires_at = none;
  row_count = rows;
  size_bytes = 0;
  file_path = data_path (record { schema = materialized_schema; table = name });
  origin = materialized spec;
}

-- What `quarantine` keeps of the manifest.
unfoldable pub purge_entry : TableName → ManifestEntry → Manifest → Manifest
purge_entry key entry m = record m {
  entries = retain (λ e. not (is_for key e && path_eq e.file_path entry.file_path)) m.entries;
}

-- The closure of `find_map`, and the search.
abbrev spec_of : Origin → Option MaterializeSpec
spec_of cache_copy = none
spec_of (materialized spec) = some spec

unfoldable pub first_spec : TableName → List ManifestEntry → Option MaterializeSpec
first_spec key [] = none
first_spec key (e ∷ es) =
    let rest = first_spec key es in
    if is_for key e then elim (spec_of e.origin) [ some spec ↦ some spec | none ↦ rest ] else rest

module _ {Row Query : Type 0} where
  unfoldable pub commit {ℓ} :
      {T : Type ℓ}
      → T
      → Manifest
      → Result (Disk Row) IoError
      → Session Row Query
      → Result T IoError × Session Row Query
  commit out m (err e) s = (err e, s)
  commit out m (ok d) s = (ok out, record s { disk = d; memory = m })

  -- The read, change and write of the manifest under the lock of the file.
  unfoldable pub with_locked_manifest {ℓ} :
      {T : Type ℓ}
      → Io
      → (Manifest → T × Manifest)
      → Session Row Query
      → Result T IoError × Session Row Query
  unfolding commit
  with_locked_manifest io f s =
      let (out, m) = f (read_manifest_disk io s.disk) in
      if io.lock then commit out m (write_manifest_disk io m s.disk) s else (err lock_failed, s)

  unfoldable pub upsert :
      Io → ManifestEntry → Session Row Query → Result (Unit {0}) IoError × Session Row Query
  upsert io entry = with_locked_manifest io (λ m. (tt, insert_entry entry m))

  -- `register_inner`: an insertion into a map.
  unfoldable pub register_inner :
      TableName → Registered Row Query → Session Row Query → Session Row Query
  register_inner key reg s = record s {
    inner =
        (key, reg)
        ∷ retain (λ r. not (text_eq (r.0).schema key.schema && text_eq (r.0).table key.table))
            s.inner;
  }

  unfoldable pub registered :
      TableName → List (TableName × Registered Row Query) → Option (Registered Row Query)
  registered key [] = none
  registered key ((k, r) ∷ rs) =
      if text_eq k.schema key.schema && text_eq k.table key.table then some r else registered key rs

  -- The entry that a read may be served from: by the copy in memory, at the instant `now`.
  unfoldable pub fresh : ℕ → TableName → Session Row Query → Option ManifestEntry
  fresh now key s = find (λ e. is_for key e && unexpired now e) s.memory.entries

  unfoldable pub is_fresh : ℕ → TableName → Session Row Query → Bool
  unfolding fresh
  is_fresh now key s = elim (fresh now key s) [ none ↦ false | some e ↦ true ]

  -- After an entry was taken out: its file goes too.
  unfoldable pub drop_file : Io → FilePath → Session Row Query → Session Row Query
  drop_file io p s = record s { disk = remove_file io p s.disk }

  unfoldable pub removed_entry :
      Io
      → Result (Option ManifestEntry) IoError × Session Row Query
      → Result Bool IoError × Session Row Query
  unfolding drop_file
  removed_entry io (err e, s) = (err e, s)
  removed_entry io (ok none, s) = (ok false, s)
  removed_entry io (ok (some entry), s) = (ok true, drop_file io entry.file_path s)

  unfoldable pub invalidate :
      Io → TableName → Session Row Query → Result Bool IoError × Session Row Query
  unfolding removed_entry
  invalidate io key s = removed_entry io (with_locked_manifest io (remove_first (is_for key)) s)

  unfoldable pub drop_materialized :
      Io → Text → Session Row Query → Result Bool IoError × Session Row Query
  unfolding removed_entry
  drop_materialized io name s =
      let key : TableName = record { schema = materialized_schema; table = name } in
      removed_entry io
        (with_locked_manifest io (remove_first (λ e. is_for key e && is_materialized e.origin)) s)

  unfoldable pub quarantine : Io → TableName → ManifestEntry → Session Row Query → Session Row Query
  unfolding move_aside purge_entry
  quarantine io key entry s =
      let s' = (with_locked_manifest io (λ m. (tt {0}, purge_entry key entry m)) s).1 in
      record s' { disk = move_aside io key entry.file_path s'.disk }

  unfoldable pub written :
      ManifestEntry
      → Result (Unit {0}) IoError × Session Row Query
      → Result ManifestEntry IoError × Session Row Query
  written entry (err e, s) = (err e, s)
  written entry (ok _, s) = (ok entry, s)

  -- The manifest, once the file is in place: the entry records the length of the file.
  unfoldable pub store_entry :
      Io
      → ManifestEntry
      → Session Row Query
      → Result (Disk Row) IoError
      → Result ManifestEntry IoError × Session Row Query
  unfolding written
  store_entry io entry s (err e) = (err e, s)
  store_entry io entry s (ok d) =
      let entry' = record entry {
        size_bytes = elim (io.len entry.file_path) [ none ↦ 0 | some n ↦ n ];
      } in
      written entry' (upsert io entry' (record s { disk = d }))

  -- The file first, then the manifest.
  unfoldable pub write_entry :
      Io
      → List (List Row)
      → ManifestEntry
      → Session Row Query
      → Result ManifestEntry IoError × Session Row Query
  unfolding store_entry
  write_entry io batches entry s =
      store_entry io entry s (atomic_write_parquet io entry.file_path batches s.disk)

  unfoldable pub write_through :
      Io
      → ℕ
      → TableName
      → List (List Row)
      → CachePolicy
      → Session Row Query
      → Result ManifestEntry IoError × Session Row Query
  unfolding write_entry
  write_through io now key batches policy =
      write_entry io batches (cached_entry now key (num_rows batches) policy)

  unfoldable pub materialize :
      Io
      → ℕ
      → Text
      → List (List Row)
      → MaterializeSpec
      → Session Row Query
      → Result ManifestEntry IoError × Session Row Query
  unfolding write_entry
  materialize io now name batches spec =
      write_entry io batches (materialized_entry now name (num_rows batches) spec)

  -- `materialized_spec`: how the table was made.
  unfoldable pub materialized_spec : Text → Session Row Query → Option MaterializeSpec
  materialized_spec name s =
      first_spec (record { schema = materialized_schema; table = name }) s.memory.entries
