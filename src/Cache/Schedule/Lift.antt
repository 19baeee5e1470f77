-- ===== src/Cache/Schedule/Lift.antt =====
-- Each operation changes the manifest on the disk by a few changes only: a relation that these keep,
-- and that composes, holds between the manifests before and after.
use mathlib.Core.Path.{subst}
use pawrly.Prelude.{
  ℕ, Text, ◌≡◌, refl, inl, inr, Bool, true, false, ◌&&◌, not, Option, none, some, List, Result, ok,
  err, retain, Option-cases, Bool-cases, &&-eq-true, arith,
}
use pawrly.Cache.Types.{
  TableName, CachePolicy, MaterializeSpec, FilePath, ManifestEntry, Manifest, is_for,
}
use pawrly.Cache.Disk.{
  Disk, Io, IoError, path_eq, empty_manifest, manifest_of, read_manifest_disk, atomic_write_parquet,
  place_file, remove_file, num_rows,
}
use pawrly.Cache.Manager.{
  Session, Provider, Registered, entry_key, materialized_schema, cached_entry, materialized_entry,
  purge_entry, insert_entry, remove_first, with_locked_manifest, upsert, removed_entry, move_aside,
  registered, invalidate, drop_materialized, quarantine, write_entry, store_entry, written,
  write_through, materialize, fresh,
}
use pawrly.Cache.Manager.Locked.{with_locked_manifest_cases}
use pawrly.Cache.Manager.WellFormed.{IsPlaced}
use pawrly.Cache.Vacuum.{vacuum, drop_expired}
use pawrly.Cache.Vacuum.Keeps.{vacuumed_manifest}
use pawrly.Cache.Provider.{
  scan, scan_entry, fetch, fetched, refresh, refresh_from, store_scanned, store_refreshed,
}

-- A relation between manifests that the changes made for the table `key` keep.
pub record IsStable (R : Manifest → Manifest → Type 0) (key : TableName) : Type 0 where
  pub same : (m : Manifest) → R m m
  pub trans : (a b c : Manifest) → R a b → R b c → R a c
  pub insert :
      (e : ManifestEntry) (m : Manifest) → entry_key e ≡ key → IsPlaced e → R m (insert_entry e m)
  pub remove :
      (p : ManifestEntry → Bool) (m : Manifest)
      → ((e : ManifestEntry) → p e ≡ true → is_for key e ≡ true)
      → R m (remove_first p m).1
  pub purge :
      (p : ManifestEntry → Bool) (m : Manifest)
      → ((e : ManifestEntry) → p e ≡ false → is_for key e ≡ true)
      → R m (record m { entries = retain p m.entries })

atomic_write_manifest :
    {Row : Type 0} (io : Io) (p : FilePath) (batches : List (List Row)) (d d' : Disk Row)
    → atomic_write_parquet io p batches d ≡ ok d'
    → manifest_of d' ≡ manifest_of d
unfolding atomic_write_parquet place_file manifest_of
atomic_write_manifest io p batches d d' e = ground arith

move_aside_manifest :
    {Row : Type 0} (io : Io) (key : TableName) (p : FilePath) (d : Disk Row)
    → manifest_of (move_aside io key p d) ≡ manifest_of d
unfolding move_aside remove_file place_file manifest_of
move_aside_manifest io key p d = ground arith

-- Where the read of the manifest fails, the relation holds between any manifest and the empty one.
abbrev pub ReadsWithin : (Manifest → Manifest → Type 0) → Io → Type 0
ReadsWithin R io = io.read_manifest ≡ false → (m : Manifest) → R m empty_manifest

read_lift :
    {Row : Type 0} (R : Manifest → Manifest → Type 0) (io : Io) (d : Disk Row)
    → ((m : Manifest) → R m m)
    → ReadsWithin R io
    → R (manifest_of d) (read_manifest_disk io d)
unfolding read_manifest_disk
read_lift R io d same read = elim (Bool-cases io.read_manifest) [
  | inl h ↦ rw h (same (manifest_of d))
  | inr h ↦ rw h (read h (manifest_of d))
]

module _ {Row Query : Type 0} (R : Manifest → Manifest → Type 0) where
  abbrev pub Between : Session Row Query → Session Row Query → Type 0
  Between s t = R (manifest_of s.disk) (manifest_of t.disk)

  pub locked_lift {ℓ} :
      {T : Type ℓ} (io : Io) (f : Manifest → T × Manifest) (s : Session Row Query)
      → ((m : Manifest) → R m m)
      → ((a b c : Manifest) → R a b → R b c → R a c)
      → ReadsWithin R io
      → ((m : Manifest) → R m (f m).1)
      → Between s (with_locked_manifest io f s).1
  unfolding manifest_of
  locked_lift io f s same trans read change = elim (with_locked_manifest_cases io f s) [
    | inl e ↦
        rw e (trans _ _ _ (read_lift R io s.disk same read) (change (read_manifest_disk io s.disk)))
    | inr (_, e) ↦ rw e (same (manifest_of s.disk))
  ]

  removed_entry_manifest :
      (io : Io) (r : Result (Option ManifestEntry) IoError × Session Row Query)
      → manifest_of (removed_entry io r).1.disk ≡ manifest_of r.1.disk
  unfolding removed_entry remove_file manifest_of
  removed_entry_manifest io (err e, s) = refl
  removed_entry_manifest io (ok none, s) = refl
  removed_entry_manifest io (ok (some entry), s) = elim (Bool-cases (io.delete entry.file_path)) [
    | inl h ↦ rw h
    | inr h ↦ rw h
  ]

  written_state :
      (entry : ManifestEntry) (r : Result (Unit {0}) IoError × Session Row Query)
      → (written entry r).1 ≡ r.1
  unfolding written
  written_state entry (err e, s) = refl
  written_state entry (ok u, s) = refl

  refreshed_state :
      (key : TableName) (r : Result ManifestEntry IoError × Session Row Query)
      → (store_refreshed key r).1 ≡ r.1
  unfolding store_refreshed
  refreshed_state key (err e, s) = refl
  refreshed_state key (ok entry, s) = refl

  module _ {key : TableName} (st : IsStable R key) where
    store_entry_lift :
        (io : Io) (entry : ManifestEntry) (s : Session Row Query) (r : Result (Disk Row) IoError)
        → ((d : Disk Row) → r ≡ ok d → manifest_of d ≡ manifest_of s.disk)
        → entry_key entry ≡ key
        → IsPlaced entry
        → ReadsWithin R io
        → Between s (store_entry io entry s r).1
    unfolding store_entry upsert
    store_entry_lift io entry s (err e) same k placed read = st.same _
    store_entry_lift io entry s (ok d) same k placed read =
        let entry' : ManifestEntry = record entry {
          size_bytes = elim (io.len entry.file_path) [ none ↦ 0 | some n ↦ n ];
        } in
        let s' : Session Row Query = record s { disk = d } in
        let b : Between s' (upsert io entry' s').1 =
          locked_lift io (λ m. (tt {0}, insert_entry entry' m)) s' st.same st.trans read
            (λ m. st.insert entry' m k (record { path = placed.path; pinned = placed.pinned })) in
        rw written_state
          (subst (λ m. R m (manifest_of (upsert io entry' s').1.disk)) (same d refl) b)

    write_entry_lift :
        (io : Io) (batches : List (List Row)) (entry : ManifestEntry) (s : Session Row Query)
        → entry_key entry ≡ key
        → IsPlaced entry
        → ReadsWithin R io
        → Between s (write_entry io batches entry s).1
    unfolding write_entry
    write_entry_lift io batches entry s =
        store_entry_lift io entry s _ (atomic_write_manifest io entry.file_path batches s.disk)

    pub write_through_lift :
        (io : Io) (now : ℕ) (batches : List (List Row)) (policy : CachePolicy)
        (s : Session Row Query)
        → ReadsWithin R io
        → Between s (write_through io now key batches policy s).1
    unfolding write_through
    write_through_lift io now batches policy s read =
        write_entry_lift io batches (cached_entry now key (num_rows batches) policy) s refl
          (record { path = refl; pinned = λ h. cc }) read

    pub invalidate_lift :
        (io : Io) (s : Session Row Query) → ReadsWithin R io → Between s (invalidate io key s).1
    unfolding invalidate
    invalidate_lift io s read =
        rw removed_entry_manifest
          (locked_lift io _ s st.same st.trans read (λ m. st.remove (is_for key) m (λ e h. h)))

    pub quarantine_lift :
        (io : Io) (entry : ManifestEntry) (s : Session Row Query)
        → ReadsWithin R io
        → Between s (quarantine io key entry s)
    unfolding quarantine
    quarantine_lift io entry s read = rw move_aside_manifest (
        locked_lift io (λ m. (tt {0}, purge_entry key entry m)) s st.same st.trans read
          (λ m. purged m))
      where
        purged : (m : Manifest) → R m (purge_entry key entry m)
        purged m =
            unfold purge_entry in
            st.purge (λ e. not (is_for key e && path_eq e.file_path entry.file_path)) m
              (λ e h. ground arith)

    fetched_lift :
        (io : Io) (now : ℕ) (policy : CachePolicy) (s : Session Row Query)
        (r : Result (List (List Row)) Text)
        → ReadsWithin R io
        → Between s (fetched io now key policy s r).1
    unfolding fetched
    fetched_lift io now policy s (err e) read = st.same _
    fetched_lift io now policy s (ok batches) read = write_through_lift io now batches policy s read

    scan_entry_lift :
        (io io' : Io) (later : ℕ) (q : Query) (inner : Provider Row Query) (policy : CachePolicy)
        (s : Session Row Query) (entry : ManifestEntry) (r : Option (List (List Row)))
        → ReadsWithin R io
        → ReadsWithin R io'
        → Between s (scan_entry io io' later q inner key policy s entry r).1
    unfolding scan_entry fetch
    scan_entry_lift io io' later q inner policy s entry (some batches) read read' = st.same _
    scan_entry_lift io io' later q inner policy s entry none read read' =
        st.trans _ _ _ (quarantine_lift io entry s read)
          (fetched_lift io' later policy (quarantine io key entry s) (inner.scan q) read')

    pub scan_lift :
        (io io' : Io) (now later : ℕ) (q : Query) (inner : Provider Row Query)
        (policy : CachePolicy) (s : Session Row Query)
        → ReadsWithin R io
        → ReadsWithin R io'
        → Between s (scan io io' now later q inner key policy s).1
    unfolding scan fetch
    scan_lift io io' now later q inner policy s read read' = elim (Option-cases (fresh now key s)) [
      | inl e ↦ rw (e, scan) (fetched_lift io' later policy s (inner.scan q) read')
      | inr (entry, e) ↦
          rw (e, scan) (scan_entry_lift io io' later q inner policy s entry _ read read')
    ]

    pub refresh_lift :
        (io : Io) (now : ℕ) (s : Session Row Query)
        → ReadsWithin R io
        → Between s (refresh io now key s).1
    unfolding refresh refresh_from
    refresh_lift io now s read = go (registered key s.inner)
      where
        store :
            (policy : CachePolicy) (r : Result (List (List Row)) Text)
            → Between s (store_scanned io now key policy s r).1
        store policy (err e) = unfold store_scanned in st.same _
        store policy (ok batches) =
            unfold store_scanned in
            rw refreshed_state (write_through_lift io now batches policy s read)

        go : (o : Option (Registered Row Query)) → Between s (refresh_from io now key s o).1
        go none = st.same _
        go (some reg) = store reg.policy (reg.provider.scan reg.provider.everything)

  pub materialize_lift :
      (io : Io) (now : ℕ) (name : Text) (batches : List (List Row)) (spec : MaterializeSpec)
      (s : Session Row Query)
      → IsStable R (record { schema = materialized_schema; table = name })
      → ReadsWithin R io
      → Between s (materialize io now name batches spec s).1
  unfolding materialize
  materialize_lift io now name batches spec s st read =
      write_entry_lift st io batches (materialized_entry now name (num_rows batches) spec) s refl
        (record { path = refl; pinned = λ h. refl }) read

  pub drop_lift :
      (io : Io) (name : Text) (s : Session Row Query)
      → IsStable R (record { schema = materialized_schema; table = name })
      → ReadsWithin R io
      → Between s (drop_materialized io name s).1
  unfolding drop_materialized
  drop_lift io name s st read =
      rw removed_entry_manifest (
        locked_lift io _ s st.same st.trans read (λ m. st.remove _ m (λ e h. (&&-eq-true _ _ h).0)))

  pub vacuum_lift :
      (io : Io) (now : ℕ) (s : Session Row Query)
      → ((m : Manifest) → R m m)
      → ((a b c : Manifest) → R a b → R b c → R a c)
      → ReadsWithin R io
      → ((m : Manifest) → R m (drop_expired now m).1)
      → Between s (vacuum io now s).1
  unfolding vacuum
  vacuum_lift io now s same trans read change =
      rw (vacuumed_manifest io) (locked_lift io (drop_expired now) s same trans read change)
