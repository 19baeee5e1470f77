-- ===== src/Cache/Schedule/Pinned.antt =====
-- An entry stays, whatever the other processes do about other tables: a cached copy until it expires,
-- a materialized table until it is dropped by name.
use mathlib.Core.Bool.{false≢true}
use pawrly.Prelude.{
  ◌≡◌, ◌≢◌, sym, ◌∙◌, Bool, true, false, some, List, [], ◌∷◌, All, false_of_not, Bool-cases, inl,
  inr,
}
use pawrly.Cache.Types.{TableName, Manifest, ManifestEntry, is_for}
use pawrly.Cache.Disk.{Io, manifest_of, place_file}
use pawrly.Cache.Manager.{Session, remove_first, register_inner, materialized_schema, entry_key}
use pawrly.Cache.Manager.Keys.{
  is_for_iff, entry_for, entry_for-insert_entry, entry_for-retain, entry_for-take_first,
  entry_for-is_for,
}
use pawrly.Cache.Vacuum.{drop_expired, keeps}
use pawrly.Cache.Schedule.{
  Op, register, do_scan, do_refresh, do_write, do_materialize, do_invalidate, do_drop,
  do_quarantine, do_vacuum, do_place, Environment, World, Event, perform, step, run,
}
use pawrly.Cache.Schedule.Lift.{
  IsStable, Between, ReadsWithin, scan_lift, refresh_lift, write_through_lift, materialize_lift,
  invalidate_lift, drop_lift, quarantine_lift, vacuum_lift,
}

module _ {Row Query : Type 0} (k : TableName) (e : ManifestEntry) where
  -- The operation is about another table than `k`, or is a vacuum at an instant when the entry is
  -- materialized or not expired.
  abbrev pub IsApart : Environment → Op Row Query → Type 0
  IsApart v (register key reg) = Unit {0}
  IsApart v (do_scan q inner key policy) = k ≢ key
  IsApart v (do_refresh key) = k ≢ key
  IsApart v (do_write key batches policy) = k ≢ key
  IsApart v (do_materialize name batches spec) =
      k ≢ record { schema = materialized_schema; table = name }
  IsApart v (do_invalidate key) = k ≢ key
  IsApart v (do_drop name) = k ≢ record { schema = materialized_schema; table = name }
  IsApart v (do_quarantine key entry) = k ≢ key
  IsApart v do_vacuum = keeps v.now e ≡ true
  IsApart v (do_place p c) = Unit {0}

-- The reads of the manifest that an operation makes succeed.
pub record Reads (v : Environment) : Type 0 where
  pub first : (v.io).read_manifest ≡ true
  pub second : (v.io').read_manifest ≡ true

module _ (k : TableName) (e : ManifestEntry) where
  abbrev Survives : Manifest → Manifest → Type 0
  Survives m m' = entry_for k m.entries ≡ some e → entry_for k m'.entries ≡ some e

  not_for : (key : TableName) → k ≢ key → is_for k e ≡ true → is_for key e ≡ false
  not_for key n h = false_of_not _ λ g. n (same ((is_for_iff k e).0 h) ((is_for_iff key e).0 g))
    where
      same :
          (e.source ≡ k.schema) × (e.table ≡ k.table)
          → (e.source ≡ key.schema) × (e.table ≡ key.table)
          → k ≡ key
      same (a, b) (c, d) = λ i. record { schema = (sym a ∙ c) i; table = (sym b ∙ d) i }

  survives : (key : TableName) → k ≢ key → IsStable Survives key
  survives key n = record {
    same = λ m h. h;
    trans = λ a b c f g h. g (f h);
    insert = λ x m of_key _ h. rw (entry_for-insert_entry k x m, not_about x of_key) h;
    remove = λ p m only h.
        unfold remove_first in
        entry_for-take_first k p m.entries e (apart p only (entry_for-is_for k e m.entries h)) h;
    purge = λ p m only h.
        entry_for-retain k p m.entries e (kept p only (entry_for-is_for k e m.entries h)) h;
  }
    where
      apart :
          (p : ManifestEntry → Bool)
          → ((x : ManifestEntry) → p x ≡ true → is_for key x ≡ true)
          → is_for k e ≡ true
          → p e ≡ false
      apart p only h = false_of_not _ λ t. false≢true (sym (not_for key n h) ∙ only e t)

      kept :
          (p : ManifestEntry → Bool)
          → ((x : ManifestEntry) → p x ≡ false → is_for key x ≡ true)
          → is_for k e ≡ true
          → p e ≡ true
      kept p only h = elim (Bool-cases (p e)) [
        | inl t ↦ t
        | inr t ↦ absurd (false≢true (sym (not_for key n h) ∙ only e t))
      ]

      not_about : (x : ManifestEntry) → entry_key x ≡ key → is_for k x ≡ false
      not_about x of_key = false_of_not _ λ t.
          let (a, b) = (is_for_iff k x).0 t in
          n ((λ i. record { schema = sym a i; table = sym b i }) ∙ of_key)

reads :
    (k : TableName) (e : ManifestEntry) (io : Io)
    → io.read_manifest ≡ true
    → ReadsWithin (Survives k e) io
reads k e io r h m = absurd (false≢true (sym h ∙ r))

module _ {Row Query : Type 0} (k : TableName) (e : ManifestEntry) where
  perform-Survives :
      (v : Environment) (op : Op Row Query) (s : Session Row Query)
      → IsApart k e v op
      → Reads v
      → Between (Survives k e) s (perform v op s)
  unfolding perform register_inner place_file manifest_of
  perform-Survives v (register key reg) s n r = λ h. h
  perform-Survives v (do_scan q inner key policy) s n r =
      scan_lift (Survives k e) (survives k e key n) v.io v.io' v.now v.later q inner policy s
        (reads k e v.io r.first) (reads k e v.io' r.second)
  perform-Survives v (do_refresh key) s n r =
      refresh_lift (Survives k e) (survives k e key n) v.io v.now s (reads k e v.io r.first)
  perform-Survives v (do_write key batches policy) s n r =
      write_through_lift (Survives k e) (survives k e key n) v.io v.now batches policy s
        (reads k e v.io r.first)
  perform-Survives v (do_materialize name batches spec) s n r =
      materialize_lift (Survives k e) v.io v.now name batches spec s (survives k e _ n)
        (reads k e v.io r.first)
  perform-Survives v (do_invalidate key) s n r =
      invalidate_lift (Survives k e) (survives k e key n) v.io s (reads k e v.io r.first)
  perform-Survives v (do_drop name) s n r =
      drop_lift (Survives k e) v.io name s (survives k e _ n) (reads k e v.io r.first)
  perform-Survives v (do_quarantine key entry) s n r =
      quarantine_lift (Survives k e) (survives k e key n) v.io entry s (reads k e v.io r.first)
  perform-Survives v do_vacuum s n r =
      vacuum_lift (Survives k e) v.io v.now s (λ m h. h) (λ a b c f g h. g (f h))
        (reads k e v.io r.first)
        (λ m h. unfold drop_expired in entry_for-retain k (keeps v.now) m.entries e n h)
  perform-Survives v (do_place p c) s n r = λ h. h

  -- An entry is still its table's entry after any interleaving in which each operation, by any process
  -- with whatever stale copy of the manifest, is about another table or is a vacuum at an instant when
  -- the entry is materialized or not expired, and its reads of the manifest on the disk succeed.
  pub run-Survives :
      (w : World Row Query) (events : List (Event Row Query))
      → All (λ ev. IsApart k e ev.environment ev.op × Reads ev.environment) events
      → entry_for k (manifest_of w.disk).entries ≡ some e
      → entry_for k (manifest_of (run w events).disk).entries ≡ some e
  unfolding run step
  run-Survives w [] apart h = h
  run-Survives w (ev ∷ events) ((n, r), apart) h =
      run-Survives (step w ev) events apart (perform-Survives ev.environment ev.op _ n r h)
