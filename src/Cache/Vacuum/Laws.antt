-- ===== src/Cache/Vacuum/Laws.antt =====
-- What a vacuum keeps and what it drops.
use mathlib.Core.Bool.{false≢true}
use pawrly.Prelude.{
  ℕ, ◌≡◌, refl, sym, ap, ◌∙◌, ◌⊎◌, true, false, ◌&&◌, text_eq, none, some, List, [], ◌∷◌, ok, err,
  any, All, some_inj, retain, not, Bool-cases, false_of_not, inl, inr, arith,
}
use pawrly.Cache.Types.{TableName, ManifestEntry, Manifest, is_for}
use pawrly.Cache.Disk.{Disk, Io, IoError, path_eq, file_at, manifest_of, read_manifest_disk}
use pawrly.Cache.Disk.Files.{path_eq_iff}
use pawrly.Cache.Manager.{Session, data_path, entry_key}
use pawrly.Cache.Manager.Locked.{with_locked_manifest_cases}
use pawrly.Cache.Manager.Keys.{
  is_for_common, entry_for, entry_for-retain, entry_for-is_for, All-entry_for,
}
use pawrly.Cache.Manager.WellFormed.{HasUniqueKeys, IsPlaced, IsWellFormed}
use pawrly.Cache.Vacuum.{VacuumReport, vacuum, vacuumed, keeps, drop_expired, sweep}
use pawrly.Cache.Vacuum.Keeps.{sweep_manifest, sweep_file}

none_for :
    (k : TableName) (x e : ManifestEntry) (es : List ManifestEntry)
    → is_for k x ≡ true
    → All (λ y. is_for (entry_key x) y ≡ false) es
    → All (λ y. is_for k y ≡ true → y ≡ e) es
none_for k x e [] t h = tt
none_for k x e (y ∷ es) t (n, h) =
    (λ g. absurd (false≢true (sym n ∙ is_for_common k x y g t)), none_for k x e es t h)

-- With unique keys, an entry for the table is the table's entry.
only_entry :
    (k : TableName) (e : ManifestEntry) (es : List ManifestEntry)
    → HasUniqueKeys es
    → entry_for k es ≡ some e
    → All (λ x. is_for k x ≡ true → x ≡ e) es
only_entry k e [] u h = tt
only_entry k e (x ∷ es) (apart, u) h = elim (Bool-cases (is_for k x)) [
  | inl t ↦ let same : x ≡ e = some_inj (rw t at h) in (λ _. same, none_for k x e es t apart)
  | inr t ↦ (λ g. absurd (false≢true (sym t ∙ g)), only_entry k e es u (rw t at h))
]

named_of_entry_for :
    (k : TableName) (e : ManifestEntry) (es : List ManifestEntry)
    → entry_for k es ≡ some e
    → any (λ x. path_eq x.file_path e.file_path) es ≡ true
named_of_entry_for k e [] h = cc
named_of_entry_for k e (x ∷ es) h =
    ground (arith, named_of_entry_for k e es, path_eq_iff x.file_path e.file_path)

-- The data of two tables lies at two places.
data_path-injective : (k j : TableName) → data_path k ≡ data_path j → k ≡ j
data_path-injective k j e = λ i. record { schema = schemas i; table = tables i }
  where
    schemas : k.schema ≡ j.schema
    schemas = cc

    tables : k.table ≡ j.table
    tables = cc

-- No entry that a vacuum drops has the file of one that it keeps.
dropped_apart :
    (k : TableName) (e : ManifestEntry) (now : ℕ) (es : List ManifestEntry)
    → is_for k e ≡ true
    → e.file_path ≡ data_path (entry_key e)
    → keeps now e ≡ true
    → All IsPlaced es
    → All (λ x. is_for k x ≡ true → x ≡ e) es
    → All (λ x. path_eq x.file_path e.file_path ≡ false) (retain (λ x. not (keeps now x)) es)
dropped_apart k e now [] f at kept placed only = tt
dropped_apart k e now (x ∷ es) f at kept (placed, ps) (only, os) = elim (Bool-cases (keeps now x)) [
  | inl t ↦ rw t (dropped_apart k e now es f at kept ps os)
  | inr t ↦ rw t (false_of_not _ (clash t), dropped_apart k e now es f at kept ps os)
]
  where
    clash : keeps now x ≡ false → path_eq x.file_path e.file_path ≡ true → ⊥
    clash t p =
        let same_path = sym placed.path ∙ (path_eq_iff x.file_path e.file_path).0 p ∙ at in
        let same_key = data_path-injective (entry_key x) (entry_key e) same_path in
        let for_k : is_for k x ≡ true =
          ap (λ (j : TableName). text_eq j.schema k.schema && text_eq j.table k.table) same_key
          ∙ f in
        false≢true (sym t ∙ ap (keeps now) (only for_k) ∙ kept)

module _ {Row Query : Type 0} (io : Io) (now : ℕ) (s : Session Row Query) where
  abbrev before : Manifest
  before = read_manifest_disk io s.disk

  abbrev swept : VacuumReport × Disk Row
  swept =
      sweep io (drop_expired now before).0 (drop_expired now before).1.entries
        (record s.disk { manifest = some (drop_expired now before).1 })

  -- Either the vacuum fails and changes nothing, or it sweeps by the manifest on the disk.
  vacuum_cases :
      (vacuum io now s
        ≡ (ok swept.0, record s { disk = swept.1; memory = (drop_expired now before).1 }))
      ⊎ ((e : IoError) × (vacuum io now s ≡ (err e, s)))
  unfolding vacuum
  vacuum_cases = elim (with_locked_manifest_cases io (drop_expired now) s) [
    | inl h ↦ inl (ap (vacuumed io) h)
    | inr (e, h) ↦ inr (e, ap (vacuumed io) h)
  ]

  vacuum_state :
      (report : VacuumReport) (s' : Session Row Query)
      → vacuum io now s ≡ (ok report, s')
      → s'.disk ≡ swept.1
  vacuum_state report s' h = elim vacuum_cases [
    | inl c ↦ ap (λ r. (r.1).disk) (sym h ∙ c)
    | inr (e, c) ↦ cc
  ]

  manifest_after :
      (report : VacuumReport) (s' : Session Row Query)
      → vacuum io now s ≡ (ok report, s')
      → manifest_of s'.disk ≡ (drop_expired now before).1
  manifest_after report s' h =
      ap manifest_of (vacuum_state report s' h)
      ∙ sweep_manifest io _ _ _
      ∙ unfold manifest_of in refl

drop_entry :
    (k : TableName) (e : ManifestEntry) (now : ℕ) (es : List ManifestEntry)
    → keeps now e ≡ false
    → All (λ x. is_for k x ≡ true → x ≡ e) es
    → entry_for k (retain (keeps now) es) ≡ none
drop_entry k e now [] t h = refl
drop_entry k e now (x ∷ es) t (only, h) = elim (Bool-cases (keeps now x)) [
  | inl g ↦ rw g (
      rw (false_of_not (is_for k x) (λ f. false≢true (sym t ∙ ap (keeps now) (sym (only f)) ∙ g)))
        (drop_entry k e now es t h))
  | inr g ↦ rw g (drop_entry k e now es t h)
]

module _ {Row Query : Type 0} (io : Io) (now : ℕ) (s s' : Session Row Query) (report : VacuumReport)
    (well : IsWellFormed (manifest_of s.disk)) (done : vacuum io now s ≡ (ok report, s'))
    (k : TableName) (e : ManifestEntry)
    (found : entry_for k (manifest_of s.disk).entries ≡ some e) where
  only : All (λ x. is_for k x ≡ true → x ≡ e) (manifest_of s.disk).entries
  only = only_entry k e (manifest_of s.disk).entries well.unique found

  as_read : io.read_manifest ≡ true → read_manifest_disk io s.disk ≡ manifest_of s.disk
  unfolding read_manifest_disk
  as_read readable = rw readable refl

  -- After a vacuum that succeeds on a well-formed manifest, and whose read of that manifest succeeds,
  -- a table whose entry was materialized or not expired has the same entry, and its file is what it
  -- was.
  pub vacuum_keeps :
      io.read_manifest ≡ true
      → keeps now e ≡ true
      → (entry_for k (manifest_of s'.disk).entries ≡ some e)
        × (file_at e.file_path s'.disk.files ≡ file_at e.file_path s.disk.files)
  vacuum_keeps readable kept = (entry, file)
    where
      still : entry_for k (retain (keeps now) (manifest_of s.disk).entries) ≡ some e
      still = entry_for-retain k (keeps now) (manifest_of s.disk).entries e kept found

      entry : entry_for k (manifest_of s'.disk).entries ≡ some e
      entry =
          rw (manifest_after io now s report s' done)
            (rw (as_read readable) (unfold drop_expired in still))

      apart :
          All
            (λ x. path_eq x.file_path e.file_path ≡ false)
            (retain (λ x. not (keeps now x)) (manifest_of s.disk).entries)
      apart =
          dropped_apart k e now (manifest_of s.disk).entries
            (entry_for-is_for k e (manifest_of s.disk).entries found)
            (All-entry_for IsPlaced k e (manifest_of s.disk).entries well.placed found).path kept
            well.placed only

      file : file_at e.file_path s'.disk.files ≡ file_at e.file_path s.disk.files
      file =
          ap (λ d. file_at e.file_path d.files) (vacuum_state io now s report s' done)
          ∙ sweep_file io e.file_path _ _ _ (rw (as_read readable) (unfold drop_expired in apart))
              (rw (as_read readable) (unfold drop_expired in named_of_entry_for k e _ still))

  -- After a vacuum that succeeds on a well-formed manifest, a table whose entry was an expired copy has
  -- no entry.
  pub vacuum_drops : keeps now e ≡ false → entry_for k (manifest_of s'.disk).entries ≡ none
  vacuum_drops dropped =
      rw (manifest_after io now s report s' done) (elim (Bool-cases io.read_manifest) [
        | inl h ↦
            rw (as_read h)
              (unfold drop_expired in drop_entry k e now (manifest_of s.disk).entries dropped only)
        | inr h ↦ unfold read_manifest_disk drop_expired in rw h refl
      ])
