-- ===== src/Cache/Manager/Locked.antt =====
-- What the update of the manifest under its lock does to the store.
use pawrly.Prelude.{Bool, true, false, ◌≡◌, refl, ◌⊎◌, inl, inr, some, ok, err, arith}
use pawrly.Cache.Types.{Manifest}
use pawrly.Cache.Disk.{
  Io, IoError, lock_failed, write_failed, read_manifest_disk, write_manifest_disk,
}
use pawrly.Cache.Manager.{Session, with_locked_manifest}

module _ {ℓ} {T : Type ℓ} {Row Query : Type 0} (io : Io) (f : Manifest → T × Manifest)
    (s : Session Row Query) where
  -- What a successful update leaves: the change of the manifest on the disk, there and in memory.
  abbrev pub updated : Session Row Query
  updated =
      let m = (f (read_manifest_disk io s.disk)).1 in
      record s { disk = record s.disk { manifest = some m }; memory = m }

  pub with_locked_manifest_cases :
      (with_locked_manifest io f s ≡ (ok (f (read_manifest_disk io s.disk)).0, updated))
      ⊎ ((e : IoError) × (with_locked_manifest io f s ≡ (err e, s)))
  unfolding with_locked_manifest write_manifest_disk
  with_locked_manifest_cases = go io.lock io.write_manifest refl refl
    where
      go :
          (l w : Bool)
          → io.lock ≡ l
          → io.write_manifest ≡ w
          → (with_locked_manifest io f s ≡ (ok (f (read_manifest_disk io s.disk)).0, updated))
            ⊎ ((e : IoError) × (with_locked_manifest io f s ≡ (err e, s)))
      go true true l w = inl (ground arith)
      go true false l w = inr (write_failed, ground arith)
      go false w l _ = inr (lock_failed, ground arith)
