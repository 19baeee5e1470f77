-- ===== src/Cache/Schedule/Race.antt =====
-- A write that is overtaken by another process's vacuum, between the rename of its file and its update
-- of the manifest: `atomic_write_parquet` and `upsert` are not under one lock.
use pawrly.Prelude.{
  ℕ, ◌≡◌, refl, ap, ◌∙◌, Bool, true, false, none, some, List, Result, ok, is_ok, any, retain, arith,
  if◌then◌else◌,
}
use pawrly.Cache.Types.{ManifestEntry}
use pawrly.Cache.Disk.{
  Disk, Io, IoError, parquet, path_eq, file_at, place_file, manifest_of, read_manifest_disk,
  write_manifest_disk, read_parquet,
}
use pawrly.Cache.Disk.Files.{read_parquet-absent}
use pawrly.Cache.Manager.{
  Session, entry_key, with_locked_manifest, upsert, store_entry, insert_entry,
}
use pawrly.Cache.Manager.Keys.{entry_for, entry_for-insert_entry, is_for_self}
use pawrly.Cache.Manager.Fresh.{sized}
use pawrly.Cache.Vacuum.{vacuum, keeps, drop_expired, sweep, in_data}
use pawrly.Cache.Vacuum.Orphans.{sweep_orphan}

-- The calls under the lock succeed.
pub record Locks (io : Io) : Type 0 where
  pub lock : io.lock ≡ true
  pub write_manifest : io.write_manifest ≡ true

module _ {Row Query : Type 0} where
  store_entry-ok :
      (io : Io) (e : ManifestEntry) (s : Session Row Query) (d : Disk Row)
      → Locks io
      → store_entry io e s (ok d) ≡ (
        ok (sized io e),
        record s {
          disk = record d { manifest = some (insert_entry (sized io e) (read_manifest_disk io d)) };
          memory = insert_entry (sized io e) (read_manifest_disk io d);
        },
      )
  unfolding store_entry upsert with_locked_manifest write_manifest_disk read_manifest_disk
      manifest_of
  store_entry-ok io e s d w = ground (arith, w.lock, w.write_manifest)

  pub vacuum-ok :
      (io : Io) (now : ℕ) (s : Session Row Query)
      → Locks io
      → let m = (drop_expired now (read_manifest_disk io s.disk)).1 in
        (vacuum io now s).1.disk
        ≡ (sweep io
            (drop_expired now (read_manifest_disk io s.disk)).0
            m.entries
            (record s.disk { manifest = some m })).1
  unfolding vacuum with_locked_manifest write_manifest_disk
  vacuum-ok io now s w = ground (arith, w.lock, w.write_manifest)

module _ {Row Query : Type 0} (io jo : Io) (now : ℕ) (batches : List (List Row)) (e : ManifestEntry)
    (writer cleaner : Session Row Query) where
  -- The disk once the writer's file is in place, and once the other process has cleaned up.
  abbrev pub placed_disk : Disk Row
  placed_disk = place_file e.file_path (parquet batches) writer.disk

  abbrev pub cleaned_disk : Disk Row
  cleaned_disk = (vacuum io now (record cleaner { disk = placed_disk })).1.disk

  -- The rest of the writer's operation.
  abbrev pub overtaken : Result ManifestEntry IoError × Session Row Query
  overtaken = store_entry jo e (record writer { disk = cleaned_disk }) (ok cleaned_disk)

  abbrev kept : List ManifestEntry
  kept = retain (keeps now) (read_manifest_disk io writer.disk).entries

  cleaned_gone :
      Locks io
      → io.delete e.file_path ≡ true
      → in_data e.file_path ≡ true
      → any (λ x. path_eq x.file_path e.file_path) kept ≡ false
      → file_at e.file_path cleaned_disk.files ≡ none
  unfolding place_file read_manifest_disk manifest_of drop_expired
  cleaned_gone works delete inside free =
      ap (λ d. file_at e.file_path d.files)
        (vacuum-ok io now (record cleaner { disk = placed_disk }) works)
      ∙ sweep_orphan io e.file_path delete _ kept _ inside free

  -- A write whose file is in place when a vacuum of another process runs, before the update of the
  -- manifest, reports success and leaves an entry whose file is gone, if the locks and the writes of the
  -- manifest succeed, the file lies below `data/` and can be deleted, and no entry that the vacuum
  -- keeps has it, as on the first write of a table.
  pub overtaken_loses_file :
      Locks io
      → Locks jo
      → io.delete e.file_path ≡ true
      → in_data e.file_path ≡ true
      → any (λ x. path_eq x.file_path e.file_path) kept ≡ false
      → (is_ok overtaken.0 ≡ true)
        × (entry_for (entry_key e) (manifest_of overtaken.1.disk).entries ≡ some (sized jo e))
        × (read_parquet e.file_path overtaken.1.disk ≡ none)
  unfolding manifest_of insert_entry
  overtaken_loses_file works works' delete inside free =
      rw (store_entry-ok jo e (record writer { disk = cleaned_disk }) cleaned_disk works')
        (refl, listed, lost)
    where
      gone : file_at e.file_path cleaned_disk.files ≡ none
      gone = cleaned_gone works delete inside free

      listed :
          entry_for
            (entry_key e)
            (insert_entry (sized jo e) (read_manifest_disk jo cleaned_disk)).entries
          ≡ some (sized jo e)
      listed =
          entry_for-insert_entry (entry_key e) (sized jo e) (read_manifest_disk jo cleaned_disk)
          ∙ ap
              (λ (b : Bool).
                if b
                then some (sized jo e)
                else entry_for (entry_key e) (read_manifest_disk jo cleaned_disk).entries)
              (is_for_self e)

      lost :
          read_parquet e.file_path (record cleaned_disk {
            manifest = some (insert_entry (sized jo e) (read_manifest_disk jo cleaned_disk));
          })
          ≡ none
      lost = read_parquet-absent e.file_path _ gone
