-- ===== src/Cache/Schedule/Invariant.antt =====
-- The manifest on the disk stays well formed, whatever the processes do in whatever order.
use pawrly.Prelude.{List, [], ◌∷◌}
use pawrly.Cache.Types.{TableName, Manifest}
use pawrly.Cache.Disk.{Io, manifest_of, place_file}
use pawrly.Cache.Manager.{Session, register_inner}
use pawrly.Cache.Manager.WellFormed.{
  IsWellFormed, insert_entry-IsWellFormed, remove_first-IsWellFormed, retain-IsWellFormed,
}
use pawrly.Cache.Vacuum.{drop_expired, keeps}
use pawrly.Cache.Schedule.{
  Op, register, do_scan, do_refresh, do_write, do_materialize, do_invalidate, do_drop,
  do_quarantine, do_vacuum, do_place, Environment, World, Event, perform, step, run,
}
use pawrly.Cache.Schedule.Lift.{
  IsStable, Between, ReadsWithin, scan_lift, refresh_lift, write_through_lift, materialize_lift,
  invalidate_lift, drop_lift, quarantine_lift, vacuum_lift,
}

abbrev Preserves : Manifest → Manifest → Type 0
Preserves m m' = IsWellFormed m → IsWellFormed m'

preserves : (key : TableName) → IsStable Preserves key
preserves key = record {
  same = λ m w. w;
  trans = λ a b c f g w. g (f w);
  insert = λ e m _ placed. insert_entry-IsWellFormed e m placed;
  remove = λ p m _. remove_first-IsWellFormed p m;
  purge = λ p m _. retain-IsWellFormed p m;
}

-- The empty manifest, which a failed read gives, is well formed.
reads : (io : Io) → ReadsWithin Preserves io
reads io h m w = record { unique = tt; placed = tt }

module _ {Row Query : Type 0} where
  perform-IsWellFormed :
      (v : Environment) (op : Op Row Query) (s : Session Row Query)
      → Between Preserves s (perform v op s)
  unfolding perform register_inner place_file manifest_of
  perform-IsWellFormed v (register key reg) s = λ w. w
  perform-IsWellFormed v (do_scan q inner key policy) s =
      scan_lift Preserves (preserves key) v.io v.io' v.now v.later q inner policy s (reads v.io)
        (reads v.io')
  perform-IsWellFormed v (do_refresh key) s =
      refresh_lift Preserves (preserves key) v.io v.now s (reads v.io)
  perform-IsWellFormed v (do_write key batches policy) s =
      write_through_lift Preserves (preserves key) v.io v.now batches policy s (reads v.io)
  perform-IsWellFormed v (do_materialize name batches spec) s =
      materialize_lift Preserves v.io v.now name batches spec s (preserves _) (reads v.io)
  perform-IsWellFormed v (do_invalidate key) s =
      invalidate_lift Preserves (preserves key) v.io s (reads v.io)
  perform-IsWellFormed v (do_drop name) s =
      drop_lift Preserves v.io name s (preserves _) (reads v.io)
  perform-IsWellFormed v (do_quarantine key entry) s =
      quarantine_lift Preserves (preserves key) v.io entry s (reads v.io)
  perform-IsWellFormed v do_vacuum s =
      vacuum_lift Preserves v.io v.now s (λ m w. w) (λ a b c f g w. g (f w)) (reads v.io)
        (λ m. unfold drop_expired in retain-IsWellFormed (keeps v.now) m)
  perform-IsWellFormed v (do_place p c) s = λ w. w

  -- From a well-formed manifest, after any interleaving of the operations of any number of processes,
  -- with any failures of the calls to the system, reads of the manifest among them, each table has one entry at most, every entry's file
  -- is the table's, and no materialized entry has an expiry.
  pub run-IsWellFormed :
      (w : World Row Query) (events : List (Event Row Query))
      → IsWellFormed (manifest_of w.disk)
      → IsWellFormed (manifest_of (run w events).disk)
  unfolding run step
  run-IsWellFormed w [] h = h
  run-IsWellFormed w (ev ∷ events) h =
      run-IsWellFormed (step w ev) events (perform-IsWellFormed ev.environment ev.op _ h)
