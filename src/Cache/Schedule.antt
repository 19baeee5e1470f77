-- ===== src/Cache/Schedule.antt =====
-- Several processes over one store (crates/pawrly-engine/src/cache.rs): each has its own copy of the
-- manifest and its own providers, and an operation of one runs between those of the others.
pub mod Lift
pub mod Invariant
pub mod Pinned
pub mod Race
pub mod Unread
use pawrly.Prelude.{ℕ, ◌==◌, Text, List, [], ◌∷◌, if◌then◌else◌}
use pawrly.Cache.Types.{TableName, CachePolicy, MaterializeSpec, FilePath, ManifestEntry, Manifest}
use pawrly.Cache.Disk.{Disk, Io, Contents, place_file}
use pawrly.Cache.Manager.{
  Session, Provider, Registered, register_inner, invalidate, quarantine, write_through, materialize,
  drop_materialized,
}
use pawrly.Cache.Vacuum.{vacuum}
use pawrly.Cache.Provider.{scan, refresh}

-- The operations of a manager, with the arguments of each call.
pub data Op (Row Query : Type 0) : Type 0 where
  register : TableName → Registered Row Query → Op Row Query
  do_scan : Query → Provider Row Query → TableName → CachePolicy → Op Row Query
  do_refresh : TableName → Op Row Query
  do_write : TableName → List (List Row) → CachePolicy → Op Row Query
  do_materialize : Text → List (List Row) → MaterializeSpec → Op Row Query
  do_invalidate : TableName → Op Row Query
  do_drop : Text → Op Row Query
  do_quarantine : TableName → ManifestEntry → Op Row Query
  do_vacuum : Op Row Query
  -- a write whose process dies, or is overtaken, between the rename and the manifest
  do_place : FilePath → Contents Row → Op Row Query

-- What the system answers to the calls of one operation, and the instants that it reads.
pub record Environment : Type 0 where
  pub io : Io
  pub io' : Io
  pub now : ℕ
  pub later : ℕ

pub record Process (Row Query : Type 0) : Type 0 where
  pub memory : Manifest
  pub inner : List (TableName × Registered Row Query)

pub record World (Row Query : Type 0) : Type 0 where
  pub disk : Disk Row
  pub process : ℕ → Process Row Query

pub record Event (Row Query : Type 0) : Type 0 where
  pub pid : ℕ
  pub environment : Environment
  pub op : Op Row Query

module _ {Row Query : Type 0} where
  unfoldable pub perform : Environment → Op Row Query → Session Row Query → Session Row Query
  perform v (register key reg) s = register_inner key reg s
  perform v (do_scan q inner key policy) s = (scan v.io v.io' v.now v.later q inner key policy s).1
  perform v (do_refresh key) s = (refresh v.io v.now key s).1
  perform v (do_write key batches policy) s = (write_through v.io v.now key batches policy s).1
  perform v (do_materialize name batches spec) s = (materialize v.io v.now name batches spec s).1
  perform v (do_invalidate key) s = (invalidate v.io key s).1
  perform v (do_drop name) s = (drop_materialized v.io name s).1
  perform v (do_quarantine key entry) s = quarantine v.io key entry s
  perform v do_vacuum s = (vacuum v.io v.now s).1
  perform v (do_place p c) s = record s { disk = place_file p c s.disk }

  abbrev pub session_of : World Row Query → ℕ → Session Row Query
  session_of w pid = record {
    disk = w.disk;
    memory = (w.process pid).memory;
    inner = (w.process pid).inner;
  }

  unfoldable pub step : World Row Query → Event Row Query → World Row Query
  step w ev =
      let s = perform ev.environment ev.op (session_of w ev.pid) in
      record {
        disk = s.disk;
        process = λ pid.
            if pid == ev.pid then record { memory = s.memory; inner = s.inner } else w.process pid;
      }

  -- An interleaving: the events in the order in which they take the lock.
  unfoldable pub run : World Row Query → List (Event Row Query) → World Row Query
  run w [] = w
  run w (ev ∷ evs) = run (step w ev) evs
