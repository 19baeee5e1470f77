-- ===== src/Cache/Vacuum/Orphans.antt =====
-- A vacuum deletes the files below `data/` that no kept entry names.
use mathlib.Core.Path.{subst}
use pawrly.Prelude.{
  ◌≡◌, sym, ap, ◌∙◌, true, false, none, some, List, [], ◌∷◌, any, Bool-cases, Option-cases, inl,
  inr, arith,
}
use pawrly.Cache.Types.{FilePath, ManifestEntry}
use pawrly.Cache.Disk.{Disk, Io, Contents, path_eq, file_at, remove_file}
use pawrly.Cache.Disk.Files.{path_eq_iff, file_at-without_file}
use pawrly.Cache.Vacuum.{
  VacuumReport, no_report, reclaim, reclaim_expired, reclaim_orphan, reclaim_orphans, collect_files,
  clean_tmp, sweep, in_data,
}

module _ {Row : Type 0} (io : Io) (p : FilePath) (delete : io.delete p ≡ true) where
  reclaim_gone : (acc : VacuumReport × Disk Row) → file_at p ((reclaim io p acc).1).files ≡ none
  unfolding reclaim remove_file
  reclaim_gone (r, d) = ground (arith, delete, file_at-without_file p p d.files, path_eq_iff p p)

  reclaim_stays :
      (q : FilePath) (acc : VacuumReport × Disk Row)
      → file_at p (acc.1).files ≡ none
      → file_at p ((reclaim io q acc).1).files ≡ none
  unfolding reclaim remove_file
  reclaim_stays q (r, d) h = ground (arith, file_at-without_file p q d.files)

  orphans_stays :
      (kept : List ManifestEntry) (ps : List FilePath) (acc : VacuumReport × Disk Row)
      → file_at p (acc.1).files ≡ none
      → file_at p ((reclaim_orphans io kept ps acc).1).files ≡ none
  unfolding reclaim_orphans reclaim_orphan
  orphans_stays kept [] acc h = h
  orphans_stays kept (q ∷ ps) acc h =
      orphans_stays kept ps _ (ground (arith, reclaim_stays q acc h))

  orphans_gone :
      (kept : List ManifestEntry) (ps : List FilePath) (acc : VacuumReport × Disk Row)
      → any (λ e. path_eq e.file_path p) kept ≡ false
      → any (λ q. path_eq q p) ps ≡ true
      → file_at p ((reclaim_orphans io kept ps acc).1).files ≡ none
  unfolding reclaim_orphans
  orphans_gone kept [] acc free listed = cc
  orphans_gone kept (q ∷ ps) acc free listed = elim (Bool-cases (path_eq q p)) [
    | inl h ↦ orphans_stays kept ps _ (
        subst (λ r. file_at p ((reclaim_orphan io kept r acc).1).files ≡ none)
          (sym ((path_eq_iff q p).0 h)) (unfold reclaim_orphan in ground (arith, reclaim_gone acc)))
    | inr h ↦ orphans_gone kept ps _ free (rw h at listed)
  ]

  collected :
      (fs : List (FilePath × Contents Row)) (c : Contents Row)
      → in_data p ≡ true
      → file_at p fs ≡ some c
      → any (λ q. path_eq q p) (collect_files fs) ≡ true
  unfolding collect_files file_at
  collected [] c inside h = cc
  collected ((q, x) ∷ fs) c inside h = elim (Bool-cases (path_eq q p)) [
    | inl t ↦ let same = (path_eq_iff q p).0 t in rw (ap in_data same ∙ inside) (rw t)
    | inr t ↦ ground (arith, collected fs c inside (rw t at h))
  ]

  -- After the sweep, a file below `data/` that can be deleted and that no kept entry names is gone.
  pub sweep_orphan :
      (expired kept : List ManifestEntry) (d : Disk Row)
      → in_data p ≡ true
      → any (λ e. path_eq e.file_path p) kept ≡ false
      → file_at p ((sweep io expired kept d).1).files ≡ none
  unfolding sweep clean_tmp
  sweep_orphan expired kept d inside free =
      let acc : VacuumReport × Disk Row = reclaim_expired io expired (no_report, d) in
      elim (Option-cases (file_at p (acc.1).files)) [
        | inl gone ↦ orphans_stays kept (collect_files (acc.1).files) acc gone
        | inr (c, there) ↦
            orphans_gone kept (collect_files (acc.1).files) acc free
              (collected (acc.1).files c inside there)
      ]
