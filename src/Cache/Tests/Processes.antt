-- ===== src/Cache/Tests/Processes.antt =====
-- Several processes over one store, at concrete inputs.
use pawrly.Prelude.{false, ℕ, ◌≡◌, ◌≢◌, refl, true, none, some, List, [], ◌∷◌, is_ok, text_eq}
use pawrly.Cache.Types.{ttl}
use pawrly.Cache.Disk.{Io, file_at, manifest_of, read_manifest_disk, read_parquet}
use pawrly.Cache.Manager.{write_entry, entry_key}
use pawrly.Cache.Manager.Keys.{entry_for}
use pawrly.Cache.Manager.WellFormed.{IsWellFormed}
use pawrly.Cache.Manager.Fresh.{Works, sized}
use pawrly.Cache.Vacuum.{vacuum}
use pawrly.Cache.Schedule.{do_scan, do_vacuum, Environment, World, Event, run}
use pawrly.Cache.Schedule.Invariant.{run-IsWellFormed}
use pawrly.Cache.Schedule.Pinned.{Reads, run-Survives}
use pawrly.Cache.Schedule.Unread.{unread_loses}
use pawrly.Cache.Schedule.Race.{Locks, overtaken, overtaken_loses_file}
use pawrly.Cache.Tests.{
  all_well, take_rows, source, issues, empty_manifest, start, pinned, copy, stocked_disk,
  stocked_session, stocked-IsWellFormed,
}

abbrev environment : Environment
environment = record { io = all_well; io' = all_well; now = 6; later = 7 }

abbrev world : World ℕ ℕ
world = record {
  disk = stocked_disk;
  process = λ pid. record { memory = empty_manifest; inner = [] };
}

-- Process 0 scans through the cache, and process 1, whose copy of the manifest is stale, vacuums.
abbrev events : List (Event ℕ ℕ)
events =
    record { pid = 0; environment = environment; op = do_scan 1 source issues (ttl 3600) }
    ∷ record { pid = 1; environment = environment; op = do_vacuum }
    ∷ []

run-IsWellFormed_example : IsWellFormed (manifest_of (run world events).disk)
run-IsWellFormed_example =
    run-IsWellFormed world events (unfold manifest_of in stocked-IsWellFormed)

reads : Reads environment
reads = record { first = refl; second = refl }

other_key : entry_key pinned ≢ issues
other_key h = cc

run-Survives_example :
    entry_for (entry_key pinned) (manifest_of (run world events).disk).entries ≡ some pinned
run-Survives_example =
    run-Survives (entry_key pinned) pinned world events ((other_key, reads), ((refl, reads), tt))
      (unfold manifest_of text_eq in refl)

locks : Locks all_well
locks = record { lock = refl; write_manifest = refl }

-- A process materializes a table, and another one vacuums in between.
overtaken_loses_file_example :
    (is_ok (overtaken all_well all_well 9 (take_rows 1) pinned start start).0 ≡ true)
    × (entry_for
          (entry_key pinned)
          (manifest_of
            (overtaken all_well all_well 9 (take_rows 1) pinned start start).1.disk).entries
        ≡ some (sized all_well pinned))
    × (read_parquet pinned.file_path
          (overtaken all_well all_well 9 (take_rows 1) pinned start start).1.disk
        ≡ none)
overtaken_loses_file_example =
    overtaken_loses_file all_well all_well 9 (take_rows 1) pinned start start locks locks refl
      (unfold text_eq in refl) (unfold read_manifest_disk manifest_of in refl)

abbrev unreadable_manifest : Io
unreadable_manifest = record all_well { read_manifest = false }

writes : Works unreadable_manifest
writes = record { lock = refl; write_manifest = refl; write_parquet = refl }

-- The store has a materialized table, whose file the vacuum deletes.
unread_loses_example :
    ((manifest_of
        (write_entry unreadable_manifest (take_rows 1) copy stocked_session).1.disk).entries
      ≡ sized unreadable_manifest copy ∷ [])
    × ((manifest_of (vacuum unreadable_manifest 6 stocked_session).1.disk).entries ≡ [])
    × (file_at pinned.file_path (vacuum unreadable_manifest 6 stocked_session).1.disk.files ≡ none)
unread_loses_example =
    unread_loses unreadable_manifest refl 6 (take_rows 1) copy stocked_session pinned.file_path
      writes refl (unfold text_eq in refl)
