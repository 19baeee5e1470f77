-- ===== src/Cache/Manager/Fresh.antt =====
-- What a write leaves, and what a read by name finds after it.
use pawrly.Prelude.{
  ℕ, ◌≡◌, Bool, true, ◌&&◌, none, some, List, [], ◌∷◌, ◌++◌, ok, if◌then◌else◌, find, not, retain,
  arith, Bool-cases, inl, inr,
}
use pawrly.Cache.Types.{ManifestEntry, is_for, unexpired}
use pawrly.Cache.Disk.{
  Io, parquet, manifest_of, read_manifest_disk, place_file, atomic_write_parquet,
  write_manifest_disk, read_parquet,
}
use pawrly.Cache.Disk.Files.{file_at-place_file, path_eq_iff}
use pawrly.Cache.Manager.{
  Session, entry_key, insert_entry, upsert, with_locked_manifest, store_entry, write_entry, fresh,
}
use pawrly.Cache.Manager.Keys.{is_for_self}

-- The calls of a write succeed.
pub record Works (io : Io) : Type 0 where
  pub lock : io.lock ≡ true
  pub write_manifest : io.write_manifest ≡ true
  pub write_parquet : io.write_parquet ≡ true

-- The entry with the length of the file that was written.
abbrev pub sized : Io → ManifestEntry → ManifestEntry
sized io e = record e { size_bytes = elim (io.len e.file_path) [ none ↦ 0 | some n ↦ n ] }

module _ {Row Query : Type 0} where
  -- The store after a write that succeeded.
  abbrev pub after_write :
      Io → List (List Row) → ManifestEntry → Session Row Query → Session Row Query
  after_write io batches e s =
      let m = insert_entry (sized io e) (read_manifest_disk io s.disk) in
      record s {
        disk = record (place_file e.file_path (parquet batches) s.disk) { manifest = some m };
        memory = m;
      }

  pub write_entry-ok :
      (io : Io) (batches : List (List Row)) (e : ManifestEntry) (s : Session Row Query)
      → Works io
      → write_entry io batches e s ≡ (ok (sized io e), after_write io batches e s)
  unfolding write_entry store_entry atomic_write_parquet place_file upsert with_locked_manifest
      write_manifest_disk read_manifest_disk manifest_of
  write_entry-ok io batches e s w = ground (arith, w.lock, w.write_manifest, w.write_parquet)

-- After an insertion the search for a table's entry that passes a test sees the new entry alone.
pub find-insert_entry :
    (p : ManifestEntry → Bool) (e : ManifestEntry) (es : List ManifestEntry)
    → find
        (λ x. is_for (entry_key e) x && p x)
        (retain (λ x. not (is_for (entry_key e) x)) es ++ e ∷ [])
      ≡ (if p e then some e else none)
find-insert_entry p e [] = rw (is_for_self e)
find-insert_entry p e (x ∷ es) = elim (Bool-cases (is_for (entry_key e) x)) [
  | inl h ↦ rw h (find-insert_entry p e es)
  | inr h ↦ rw (h, h) (find-insert_entry p e es)
]

module _ {Row Query : Type 0} (io : Io) (batches : List (List Row)) (e : ManifestEntry)
    (s : Session Row Query) where
  pub fresh-after_write :
      (t : ℕ)
      → fresh t (entry_key e) (after_write io batches e s)
        ≡ (if unexpired t e then some (sized io e) else none)
  unfolding fresh insert_entry
  fresh-after_write t =
      find-insert_entry (unexpired t) (sized io e) (read_manifest_disk io s.disk).entries

  pub read_parquet-after_write :
      read_parquet e.file_path (after_write io batches e s).disk ≡ some batches
  unfolding read_parquet place_file
  read_parquet-after_write = ground (
    arith,
    file_at-place_file e.file_path e.file_path (parquet batches) s.disk,
    path_eq_iff e.file_path e.file_path,
  )
