-- ===== src/Cache/Disk.antt =====
-- The directory of one store: the files below its root, and the manifest read and written under the
-- lock (crates/pawrly-engine/src/cache.rs: `with_locked_manifest`, `read_manifest_disk`,
-- `write_manifest_disk`, `atomic_write_parquet`).
pub mod Files
use pawrly.Prelude.{
  ℕ, ◌+◌, Text, Bool, true, false, ◌&&◌, Option, none, some, List, [], ◌∷◌, Result, ok, err,
  if◌then◌else◌, text_eq, length,
}
use pawrly.Cache.Types.{FilePath, Manifest}

-- `==` on paths.
unfoldable pub path_eq : FilePath → FilePath → Bool
path_eq [] [] = true
path_eq [] (d ∷ q) = false
path_eq (c ∷ p) [] = false
path_eq (c ∷ p) (d ∷ q) = text_eq c d && path_eq p q

-- What a file below `data/` holds: batches of rows that the Parquet reader gives back, or bytes that
-- it refuses. The encoding itself is the crate `parquet`'s.
pub data Contents (Row : Type 0) : Type 0 where
  parquet : List (List Row) → Contents Row
  unreadable : Contents Row

-- A file in `tmp/`: its name, whether its metadata can be read, whether it is a regular file, its
-- length, and its age where the clock gives one.
pub record TmpFile : Type 0 where
  pub name : Text
  pub has_metadata : Bool
  pub is_file : Bool
  pub bytes : ℕ
  pub age : Option ℕ

pub record Disk (Row : Type 0) : Type 0 where
  -- `manifest.json`, or `none` where it is absent or does not parse
  pub manifest : Option Manifest
  pub files : List (FilePath × Contents Row)
  pub tmp : List TmpFile

-- What the operating system answers during one operation: each field says whether the calls named
-- succeed. `uuid` is the name that `Uuid::new_v4` draws.
pub record Io : Type 0 where
  pub lock : Bool
  -- the read of a `manifest.json` that is there
  pub read_manifest : Bool
  pub write_manifest : Bool
  pub write_parquet : Bool
  pub rename : Bool
  pub delete : FilePath → Bool
  -- the length in the file's metadata
  pub len : FilePath → Option ℕ
  pub uuid : Text

-- The errors of `std::io`, by what failed.
pub data IoError : Type 0 where
  lock_failed write_failed : IoError

abbrev pub empty_manifest : Manifest
empty_manifest = record { version = 1; entries = [] }

module _ {Row : Type 0} where
  -- The manifest that the disk holds.
  unfoldable pub manifest_of : Disk Row → Manifest
  manifest_of d = elim d.manifest [ none ↦ empty_manifest | some m ↦ m ]

  -- A read that fails gives the empty manifest, though one is there.
  unfoldable pub read_manifest_disk : Io → Disk Row → Manifest
  unfolding manifest_of
  read_manifest_disk io d = if io.read_manifest then manifest_of d else empty_manifest

  -- The temporary file is renamed over `manifest.json`, so a failure leaves the old one.
  unfoldable pub write_manifest_disk : Io → Manifest → Disk Row → Result (Disk Row) IoError
  write_manifest_disk io m d =
      if io.write_manifest then ok (record d { manifest = some m }) else err write_failed

  unfoldable pub file_at : FilePath → List (FilePath × Contents Row) → Option (Contents Row)
  file_at p [] = none
  file_at p ((q, c) ∷ fs) = if path_eq q p then some c else file_at p fs

  abbrev pub exists : FilePath → Disk Row → Bool
  exists p d = elim (file_at p d.files) [ none ↦ false | some c ↦ true ]

  unfoldable pub without_file :
      FilePath → List (FilePath × Contents Row) → List (FilePath × Contents Row)
  without_file p [] = []
  without_file p ((q, c) ∷ fs) =
      let rest = without_file p fs in if path_eq q p then rest else (q, c) ∷ rest

  -- `std::fs::remove_file`, whose failure every caller ignores.
  unfoldable pub remove_file : Io → FilePath → Disk Row → Disk Row
  remove_file io p d = if io.delete p then record d { files = without_file p d.files } else d

  -- A rename into place: what stood at the path is replaced.
  unfoldable pub place_file : FilePath → Contents Row → Disk Row → Disk Row
  place_file p c d = record d { files = (p, c) ∷ without_file p d.files }

  -- The batches are written to `tmp/` and renamed into place; a failure leaves the path as it was.
  unfoldable pub atomic_write_parquet :
      Io → FilePath → List (List Row) → Disk Row → Result (Disk Row) IoError
  atomic_write_parquet io p batches d =
      if io.write_parquet then ok (place_file p (parquet batches) d) else err write_failed

  unfoldable pub read_parquet : FilePath → Disk Row → Option (List (List Row))
  read_parquet p d = elim (file_at p d.files) [
    | none ↦ none
    | some (parquet batches) ↦ some batches
    | some unreadable ↦ none
  ]

-- `batches.iter().map(|b| b.num_rows() as u64).sum()`
unfoldable pub num_rows {ℓ} : {Row : Type ℓ} → List (List Row) → ℕ
num_rows [] = 0
num_rows (b ∷ bs) = length b + num_rows bs
