-- ===== src/Cache/Vacuum.antt =====
-- `vacuum`, `clean_old_tmp` and `new` of `CacheManager` (crates/pawrly-engine/src/cache.rs), with
-- `VacuumReport` of crates/pawrly-core/src/cache.rs.
pub mod Keeps
pub mod Laws
pub mod Orphans
use pawrly.Prelude.{
  ℕ, ◌+◌, leb, codes, Bool, true, false, ◌&&◌, ◌||◌, not, Option, none, some, List, [], ◌∷◌, Result,
  ok, err, if◌then◌else◌, text_eq, any, retain,
}
use pawrly.Cache.Types.{FilePath, ManifestEntry, Manifest, is_materialized, unexpired}
use pawrly.Cache.Disk.{
  Disk, Io, IoError, lock_failed, Contents, TmpFile, path_eq, exists, remove_file,
  read_manifest_disk,
}
use pawrly.Cache.Manager.{Session, with_locked_manifest}

pub record VacuumReport : Type 0 where
  pub entries_removed : ℕ
  pub files_removed : ℕ
  pub bytes_reclaimed : ℕ

abbrev no_report : VacuumReport
no_report = record { entries_removed = 0; files_removed = 0; bytes_reclaimed = 0 }

abbrev or_zero : Option ℕ → ℕ
or_zero none = 0
or_zero (some n) = n

-- An hour, in milliseconds.
abbrev pub tmp_max_age : ℕ
tmp_max_age = 3600000

-- An entry that `vacuum` keeps.
abbrev pub keeps : ℕ → ManifestEntry → Bool
keeps now e = is_materialized e.origin || unexpired now e

abbrev pub tmp_path : TmpFile → FilePath
tmp_path t = codes "tmp" ∷ t.name ∷ []

-- Whether a file of `tmp/` is abandoned: unknown ages count as old.
abbrev too_old : ℕ → TmpFile → Bool
too_old max_age t = elim t.age [ none ↦ true | some age ↦ leb max_age age ]

-- The files that stay, the number of those removed, and their bytes.
unfoldable pub clean_old_tmp : Io → ℕ → List TmpFile → List TmpFile × ℕ × ℕ
clean_old_tmp io max_age [] = ([], 0, 0)
clean_old_tmp io max_age (t ∷ ts) =
    let (rest, files, bytes) = clean_old_tmp io max_age ts in
    if t.has_metadata && t.is_file && too_old max_age t && io.delete (tmp_path t)
    then (rest, files + 1, bytes + t.bytes)
    else (t ∷ rest, files, bytes)

-- `collect_files` walks `data/`.
abbrev pub in_data : FilePath → Bool
in_data (c ∷ d ∷ p) = text_eq c (codes "data")
in_data _ = false

module _ {Row : Type 0} where
  -- The length is counted if the file is there, and the file if it could be deleted.
  unfoldable pub reclaim : Io → FilePath → VacuumReport × Disk Row → VacuumReport × Disk Row
  reclaim io p (r, d) =
      if exists p d
      then (
        record r {
          files_removed = r.files_removed + (if io.delete p then 1 else 0);
          bytes_reclaimed = r.bytes_reclaimed + or_zero (io.len p);
        },
        remove_file io p d,
      )
      else (r, d)

  -- The loop over the expired entries.
  unfoldable pub reclaim_expired :
      Io → List ManifestEntry → VacuumReport × Disk Row → VacuumReport × Disk Row
  reclaim_expired io [] acc = acc
  reclaim_expired io (e ∷ es) acc =
      let (r, d) = reclaim io e.file_path acc in
      reclaim_expired io es (record r { entries_removed = r.entries_removed + 1 }, d)

  -- One round of the loop over the files below `data/`.
  unfoldable pub reclaim_orphan :
      Io → List ManifestEntry → FilePath → VacuumReport × Disk Row → VacuumReport × Disk Row
  reclaim_orphan io kept p acc =
      if any (λ e. path_eq e.file_path p) kept then acc else reclaim io p acc

  unfoldable pub reclaim_orphans :
      Io → List ManifestEntry → List FilePath → VacuumReport × Disk Row → VacuumReport × Disk Row
  reclaim_orphans io kept [] acc = acc
  reclaim_orphans io kept (p ∷ ps) acc = reclaim_orphans io kept ps (reclaim_orphan io kept p acc)

  -- The paths of the files below `data/`.
  unfoldable pub collect_files : List (FilePath × Contents Row) → List FilePath
  collect_files [] = []
  collect_files ((p, c) ∷ fs) = let rest = collect_files fs in if in_data p then p ∷ rest else rest

  unfoldable pub clean_tmp : Io → VacuumReport × Disk Row → VacuumReport × Disk Row
  unfolding clean_old_tmp
  clean_tmp io (r, d) =
      let (rest, files, bytes) = clean_old_tmp io tmp_max_age d.tmp in
      (
        record r {
          files_removed = r.files_removed + files;
          bytes_reclaimed = r.bytes_reclaimed + bytes;
        },
        record d { tmp = rest },
      )

  -- What follows once the expired entries are out of the manifest.
  unfoldable pub sweep :
      Io → List ManifestEntry → List ManifestEntry → Disk Row → VacuumReport × Disk Row
  sweep io expired kept d =
      let acc = reclaim_expired io expired (no_report, d) in
      clean_tmp io (reclaim_orphans io kept (collect_files (acc.1).files) acc)

-- The expired entries, and the manifest without them.
unfoldable pub drop_expired : ℕ → Manifest → List ManifestEntry × Manifest
drop_expired now m =
    (retain (λ e. not (keeps now e)) m.entries, record m { entries = retain (keeps now) m.entries })

module _ {Row Query : Type 0} where
  unfoldable pub vacuumed :
      Io
      → Result (List ManifestEntry) IoError × Session Row Query
      → Result VacuumReport IoError × Session Row Query
  vacuumed io (err e, s) = (err e, s)
  vacuumed io (ok expired, s) =
      let (report, d) = sweep io expired s.memory.entries s.disk in
      (ok report, record s { disk = d })

  unfoldable pub vacuum :
      Io → ℕ → Session Row Query → Result VacuumReport IoError × Session Row Query
  unfolding vacuumed
  vacuum io now s = vacuumed io (with_locked_manifest io (drop_expired now) s)

  -- `CacheManager::new`: `create_dir_all` may fail; else abandoned files of `tmp/` go, and the copy in
  -- memory is what the disk holds.
  unfoldable pub new : Io → Bool → Disk Row → Result (Session Row Query) IoError
  new io created d =
      if created
      then ok (record {
        disk = (clean_tmp io (no_report, d)).1;
        memory = read_manifest_disk io d;
        inner = [];
      })
      else err lock_failed
