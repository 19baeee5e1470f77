-- ===== src/Cache/Schedule/Unread.antt =====
-- What a read of `manifest.json` that fails costs: `read_manifest_disk` answers with an empty manifest
-- (crates/pawrly-engine/src/cache.rs), and the update under the lock writes that back.
use pawrly.Prelude.{ℕ, ◌≡◌, refl, ap, ◌∙◌, false, true, none, List, [], ◌∷◌}
use pawrly.Cache.Types.{FilePath, ManifestEntry}
use pawrly.Cache.Disk.{Io, file_at, manifest_of, read_manifest_disk}
use pawrly.Cache.Manager.{Session, write_entry, insert_entry}
use pawrly.Cache.Manager.Fresh.{Works, sized, write_entry-ok}
use pawrly.Cache.Vacuum.{vacuum, drop_expired, in_data}
use pawrly.Cache.Vacuum.Keeps.{sweep_manifest}
use pawrly.Cache.Vacuum.Orphans.{sweep_orphan}
use pawrly.Cache.Schedule.Race.{Locks, vacuum-ok}

module _ {Row Query : Type 0} (io : Io) (unread : io.read_manifest ≡ false) where
  -- If the read of the manifest fails, and the lock and the writes succeed, a write of one table leaves
  -- a manifest with that table's entry alone, and a vacuum leaves one without entries, and deletes each
  -- file below `data/` that can be deleted, of whatever table and with whatever expiry.
  pub unread_loses :
      (now : ℕ) (batches : List (List Row)) (e : ManifestEntry) (s : Session Row Query)
      (p : FilePath)
      → Works io
      → io.delete p ≡ true
      → in_data p ≡ true
      → ((manifest_of (write_entry io batches e s).1.disk).entries ≡ sized io e ∷ [])
        × ((manifest_of (vacuum io now s).1.disk).entries ≡ [])
        × (file_at p (vacuum io now s).1.disk.files ≡ none)
  unfolding read_manifest_disk insert_entry drop_expired
  unread_loses now batches e s p works delete inside = (
    rw (write_entry-ok io batches e s works) (unfold manifest_of in rw unread refl),
    rw (vacuum-ok io now s locks)
        (rw (sweep_manifest io _ _ _) (unfold manifest_of in rw unread refl)),
    ap (λ d. file_at p d.files) (vacuum-ok io now s locks)
        ∙ sweep_orphan io p delete _ _ _ inside (rw unread refl),
  )
    where
      locks : Locks io
      locks = record { lock = works.lock; write_manifest = works.write_manifest }
