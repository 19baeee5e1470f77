-- ===== src/Cache/Tests.antt =====
-- Runs of the cache on a small store, and its theorems at concrete inputs.
mod Processes
use pawrly.Prelude.{
  text_leb, ℕ, zero, suc, codes, ◌≡◌, refl, ◌↔◌, true, none, some, List, [], ◌∷◌, ok, arith,
  text_eq,
}
use pawrly.Cache.Types.{
  TableName, ttl, MaterializeSpec, query, FilePath, ManifestEntry, Manifest, cache_copy,
}
use pawrly.Cache.Disk.{
  Disk, Io, parquet, file_at, without_file, remove_file, manifest_of, read_manifest_disk,
  write_manifest_disk, path_eq,
}
use pawrly.Cache.Manager.{
  materialize, materialized_schema, Session, Provider, fresh, with_locked_manifest,
  materialized_entry, data_path, entry_key,
}
use pawrly.Cache.Manager.Keys.{entry_for}
use pawrly.Cache.Manager.WellFormed.{IsWellFormed}
use pawrly.Cache.Manager.Fresh.{Works, sized}
use pawrly.Cache.Vacuum.{
  VacuumReport, vacuum, drop_expired, sweep, reclaim, reclaim_expired, reclaim_orphan,
  reclaim_orphans, collect_files, clean_tmp, clean_old_tmp,
}
use pawrly.Cache.Vacuum.Laws.{vacuum_keeps, vacuum_drops}
use pawrly.Cache.Provider.{scan}
use pawrly.Cache.Provider.Reads.{scan-scan}
use pawrly.Cache.Listing.{namespace_tables, namespace_path, sort, insert, dedup, push_new}
use pawrly.Cache.Listing.Found.{has, namespace_tables-namespace_path}
use pawrly.Cache.Listing.Catalog.{table, materialize-table}

-- Rows are numbers, and a query is the number of rows that it wants.
abbrev pub all_well : Io
all_well = record {
  lock = true;
  read_manifest = true;
  write_manifest = true;
  write_parquet = true;
  rename = true;
  delete = λ p. true;
  len = λ p. some 10;
  uuid = codes "u";
}

abbrev pub take_rows : ℕ → List (List ℕ)
take_rows zero = []
take_rows (suc n) = (n ∷ []) ∷ take_rows n

abbrev pub source : Provider ℕ ℕ
source = record { scan = λ q. ok (take_rows q); everything = 9 }

abbrev pub issues : TableName
issues = record { schema = codes "github"; table = codes "issues" }

abbrev pub empty_manifest : Manifest
empty_manifest = record { version = 1; entries = [] }

abbrev empty_disk : Disk ℕ
empty_disk = record { manifest = some empty_manifest; files = []; tmp = [] }

abbrev pub start : Session ℕ ℕ
start = record { disk = empty_disk; memory = empty_manifest; inner = [] }

works : Works all_well
works = record { lock = refl; write_manifest = refl; write_parquet = refl }

-- A scan with a limit of one row, and then a scan of everything, within the hour.
scan-scan_example :
    let s' = (scan all_well all_well 10 11 1 source issues (ttl 3600) start).1 in
    scan all_well all_well 20 21 9 source issues (ttl 3600) s' ≡ (ok (take_rows 1), s')
scan-scan_example =
    scan-scan source issues (ttl 3600) all_well all_well all_well all_well 10 11 20 21 1 9 start
      (take_rows 1) works (unfold fresh in refl) refl (omega arith)

abbrev spec : MaterializeSpec
spec = query (codes "SELECT 1") []

abbrev pub pinned : ManifestEntry
pinned = sized all_well (materialized_entry 5 (codes "t") 1 spec)

abbrev pub copy : ManifestEntry
copy = record {
  source = issues.schema;
  table = issues.table;
  written_at = 5;
  expires_at = some 8;
  row_count = 1;
  size_bytes = 10;
  file_path = data_path issues;
  origin = cache_copy;
}

abbrev stocked : Manifest
stocked = record { version = 1; entries = pinned ∷ copy ∷ [] }

abbrev pub stocked_disk : Disk ℕ
stocked_disk = record {
  manifest = some stocked;
  files = (pinned.file_path, parquet (take_rows 1)) ∷ (copy.file_path, parquet (take_rows 1)) ∷ [];
  tmp = [];
}

abbrev pub stocked_session : Session ℕ ℕ
stocked_session = record { disk = stocked_disk; memory = empty_manifest; inner = [] }

pub stocked-IsWellFormed : IsWellFormed stocked
unfolding text_eq
stocked-IsWellFormed = record {
  unique = ((refl, tt), (tt, tt));
  placed =
      (record { path = refl; pinned = λ h. refl }, (record { path = refl; pinned = λ h. cc }, tt));
}

abbrev vacuumed_disk : Disk ℕ
vacuumed_disk = record {
  manifest = some (record { version = 1; entries = pinned ∷ [] });
  files = (pinned.file_path, parquet (take_rows 1)) ∷ [];
  tmp = [];
}

abbrev vacuumed_session : Session ℕ ℕ
vacuumed_session = record {
  disk = vacuumed_disk;
  memory = record { version = 1; entries = pinned ∷ [] };
  inner = [];
}

abbrev one_removed : VacuumReport
one_removed = record { entries_removed = 1; files_removed = 1; bytes_reclaimed = 10 }

vacuum_run : vacuum all_well 9 stocked_session ≡ (ok one_removed, vacuumed_session)
unfolding vacuum with_locked_manifest write_manifest_disk read_manifest_disk manifest_of
    drop_expired sweep reclaim_expired reclaim reclaim_orphans reclaim_orphan collect_files
    clean_tmp clean_old_tmp text_eq file_at path_eq remove_file without_file
vacuum_run = refl

stocked_manifest : manifest_of stocked_disk ≡ stocked
unfolding manifest_of
stocked_manifest = refl

vacuum_keeps_example :
    (entry_for (entry_key pinned) (manifest_of vacuumed_disk).entries ≡ some pinned)
    × (file_at pinned.file_path vacuumed_disk.files ≡ file_at pinned.file_path stocked_disk.files)
vacuum_keeps_example =
    vacuum_keeps all_well 9 stocked_session vacuumed_session one_removed
      (unfold manifest_of in stocked-IsWellFormed) vacuum_run (entry_key pinned) pinned
      (unfold manifest_of text_eq in refl) refl refl

vacuum_drops_example : entry_for (entry_key copy) (manifest_of vacuumed_disk).entries ≡ none
vacuum_drops_example =
    vacuum_drops all_well 9 stocked_session vacuumed_session one_removed
      (unfold manifest_of in stocked-IsWellFormed) vacuum_run (entry_key copy) copy
      (unfold manifest_of text_eq in refl) refl

abbrev reader : Session ℕ ℕ
reader = record { disk = stocked_disk; memory = stocked; inner = [] }

tables_run : namespace_tables (codes "github") reader ≡ codes "issues" ∷ []
unfolding namespace_tables sort insert dedup push_new text_leb text_eq file_at path_eq
tables_run = refl

namespace_tables-namespace_path_example :
    (has (codes "issues") (namespace_tables (codes "github") reader) ≡ true)
    ↔ ((p : FilePath) × (namespace_path (codes "github") (codes "issues") reader ≡ some p))
namespace_tables-namespace_path_example =
    namespace_tables-namespace_path (codes "github") (codes "issues") reader

materialize-table_example :
    table materialized_schema
      (codes "t")
      (materialize all_well 5 (codes "t") (take_rows 2) spec start).1
    ≡ ok (some (take_rows 2))
materialize-table_example = materialize-table all_well 5 (codes "t") (take_rows 2) spec start works
