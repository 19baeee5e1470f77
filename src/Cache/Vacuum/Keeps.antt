-- ===== src/Cache/Vacuum/Keeps.antt =====
-- What a vacuum leaves alone: the manifest that it has written, and the files of the entries there.
use mathlib.Core.Path.{subst}
use mathlib.Core.Bool.{false≢true}
use pawrly.Prelude.{
  ◌≡◌, refl, ◌∙◌, true, false, List, [], ◌∷◌, Result, ok, err, any, All, if◌then◌else◌, Bool-cases,
  arith, inl, inr, sym, ap, false_of_not,
}
use pawrly.Cache.Types.{FilePath, ManifestEntry}
use pawrly.Cache.Disk.{Disk, Io, IoError, path_eq, file_at, remove_file, manifest_of}
use pawrly.Cache.Disk.Files.{file_at-remove_file, path_eq_iff}
use pawrly.Cache.Manager.{Session}
use pawrly.Cache.Vacuum.{
  VacuumReport, no_report, reclaim, reclaim_expired, reclaim_orphan, reclaim_orphans, clean_tmp,
  sweep, vacuumed,
}

other :
    (kept : List ManifestEntry) (p q : FilePath)
    → any (λ e. path_eq e.file_path q) kept ≡ false
    → any (λ e. path_eq e.file_path p) kept ≡ true
    → path_eq q p ≡ false
other kept p q t h = false_of_not _ λ k.
    let same = (path_eq_iff q p).0 k in
    false≢true (sym t ∙ subst (λ r. any (λ e. path_eq e.file_path r) kept ≡ true) (sym same) h)

module _ {Row : Type 0} (io : Io) where
  reclaim_manifest :
      (p : FilePath) (acc : VacuumReport × Disk Row)
      → manifest_of (reclaim io p acc).1 ≡ manifest_of acc.1
  unfolding reclaim remove_file manifest_of
  reclaim_manifest p (r, d) = ground arith

  reclaim_expired_manifest :
      (es : List ManifestEntry) (acc : VacuumReport × Disk Row)
      → manifest_of (reclaim_expired io es acc).1 ≡ manifest_of acc.1
  unfolding reclaim_expired
  reclaim_expired_manifest [] acc = refl
  reclaim_expired_manifest (e ∷ es) acc =
      reclaim_expired_manifest es _ ∙ reclaim_manifest e.file_path acc

  reclaim_orphan_manifest :
      (kept : List ManifestEntry) (p : FilePath) (acc : VacuumReport × Disk Row)
      → manifest_of (reclaim_orphan io kept p acc).1 ≡ manifest_of acc.1
  unfolding reclaim_orphan
  reclaim_orphan_manifest kept p acc = ground (arith, reclaim_manifest p acc)

  reclaim_orphans_manifest :
      (kept : List ManifestEntry) (ps : List FilePath) (acc : VacuumReport × Disk Row)
      → manifest_of (reclaim_orphans io kept ps acc).1 ≡ manifest_of acc.1
  unfolding reclaim_orphans
  reclaim_orphans_manifest kept [] acc = refl
  reclaim_orphans_manifest kept (p ∷ ps) acc =
      reclaim_orphans_manifest kept ps _ ∙ reclaim_orphan_manifest kept p acc

  pub sweep_manifest :
      (expired kept : List ManifestEntry) (d : Disk Row)
      → manifest_of (sweep io expired kept d).1 ≡ manifest_of d
  unfolding sweep clean_tmp manifest_of
  sweep_manifest expired kept d =
      reclaim_orphans_manifest kept _ _ ∙ reclaim_expired_manifest expired (no_report, d)

  reclaim_file :
      (p q : FilePath) (acc : VacuumReport × Disk Row)
      → path_eq q p ≡ false
      → file_at p ((reclaim io q acc).1).files ≡ file_at p (acc.1).files
  unfolding reclaim
  reclaim_file p q (r, d) n = ground (arith, file_at-remove_file io p q d n)

  reclaim_expired_file :
      (p : FilePath) (es : List ManifestEntry) (acc : VacuumReport × Disk Row)
      → All (λ e. path_eq e.file_path p ≡ false) es
      → file_at p ((reclaim_expired io es acc).1).files ≡ file_at p (acc.1).files
  unfolding reclaim_expired
  reclaim_expired_file p [] acc h = refl
  reclaim_expired_file p (e ∷ es) acc (n, h) =
      reclaim_expired_file p es _ h ∙ reclaim_file p e.file_path acc n

  reclaim_orphan_file :
      (kept : List ManifestEntry) (p q : FilePath) (acc : VacuumReport × Disk Row)
      → any (λ e. path_eq e.file_path p) kept ≡ true
      → file_at p ((reclaim_orphan io kept q acc).1).files ≡ file_at p (acc.1).files
  unfolding reclaim_orphan
  reclaim_orphan_file kept p q acc h = elim (Bool-cases (any (λ e. path_eq e.file_path q) kept)) [
    | inl t ↦ ap (λ b. file_at p ((if b then acc else reclaim io q acc).1).files) t
    | inr t ↦
        ap (λ b. file_at p ((if b then acc else reclaim io q acc).1).files) t
        ∙ reclaim_file p q acc (other kept p q t h)
  ]

  reclaim_orphans_file :
      (p : FilePath) (kept : List ManifestEntry) (ps : List FilePath)
      (acc : VacuumReport × Disk Row)
      → any (λ e. path_eq e.file_path p) kept ≡ true
      → file_at p ((reclaim_orphans io kept ps acc).1).files ≡ file_at p (acc.1).files
  unfolding reclaim_orphans
  reclaim_orphans_file p kept [] acc h = refl
  reclaim_orphans_file p kept (q ∷ ps) acc h =
      reclaim_orphans_file p kept ps _ h ∙ reclaim_orphan_file kept p q acc h

  -- A file that a kept entry names, and no expired one, is where it was.
  pub sweep_file :
      (p : FilePath) (expired kept : List ManifestEntry) (d : Disk Row)
      → All (λ e. path_eq e.file_path p ≡ false) expired
      → any (λ e. path_eq e.file_path p) kept ≡ true
      → file_at p ((sweep io expired kept d).1).files ≡ file_at p d.files
  unfolding sweep clean_tmp
  sweep_file p expired kept d apart named =
      reclaim_orphans_file p kept _ _ named ∙ reclaim_expired_file p expired (no_report, d) apart

  pub vacuumed_manifest :
      {Query : Type 0} (r : Result (List ManifestEntry) IoError × Session Row Query)
      → manifest_of (vacuumed io r).1.disk ≡ manifest_of r.1.disk
  unfolding vacuumed
  vacuumed_manifest (err e, s) = refl
  vacuumed_manifest (ok expired, s) = sweep_manifest expired s.memory.entries s.disk
