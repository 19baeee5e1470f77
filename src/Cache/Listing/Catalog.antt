-- ===== src/Cache/Listing/Catalog.antt =====
-- The catalog of one namespace: `NamespaceCatalogProvider` and `NamespaceSchemaProvider` of
-- crates/pawrly-engine/src/namespace.rs, with `ParquetSnapshotProvider` of
-- crates/pawrly-engine/src/cache.rs. A snapshot is seen through the rows that its scan gives.
use pawrly.Prelude.{
  ℕ, Text, ◌≡◌, refl, ap, ◌∙◌, Bool, true, false, ◌&&◌, Option, none, some, List, [], ◌∷◌, map,
  retain, find, Result, ok, err, if◌then◌else◌, arith,
}
use pawrly.Cache.Types.{MaterializeSpec, FilePath, ManifestEntry, is_for}
use pawrly.Cache.Disk.{
  Disk, Io, exists, read_parquet, parquet, place_file, read_manifest_disk, num_rows,
}
use pawrly.Cache.Disk.Files.{file_at-place_file, path_eq_iff}
use pawrly.Cache.Manager.{
  Session, materialize, materialized_schema, materialized_entry, insert_entry,
}
use pawrly.Cache.Manager.Fresh.{
  Works, sized, after_write, write_entry-ok, find-insert_entry, read_parquet-after_write,
}
use pawrly.Cache.Listing.{namespace_sources, namespace_path, path_of}
use pawrly.Cache.Listing.Found.{has, has-sort, has-dedup}

-- An error of the file that a path names.
pub data CatalogError : Type 0 where
  cannot_open : FilePath → CatalogError

abbrev is_found : Option FilePath → Bool
is_found none = false
is_found (some p) = true

unfoldable pub open_snapshot :
    {Row : Type 0} → FilePath → Option (List (List Row)) → Result (List (List Row)) CatalogError
open_snapshot p none = err (cannot_open p)
open_snapshot p (some batches) = ok batches

module _ {Row Query : Type 0} where
  -- `schema` finds the source.
  unfoldable pub schema_exists : Text → Session Row Query → Bool
  schema_exists name s = has name (namespace_sources s)

  unfoldable pub table :
      Text → Text → Session Row Query → Result (Option (List (List Row))) CatalogError
  unfolding open_snapshot
  table source name s = elim (namespace_path source name s) [
    | none ↦ ok none
    | some p ↦ elim (open_snapshot p (read_parquet p s.disk)) [ err e ↦ err e | ok b ↦ ok (some b) ]
  ]

  unfoldable pub table_exist : Text → Text → Session Row Query → Bool
  table_exist source name s = is_found (namespace_path source name s)

has-sources :
    {Row : Type 0} (source table : Text) (d : Disk Row) (es : List ManifestEntry)
    → is_found (
        path_of (
          find
            (λ e. is_for (record { schema = source; table = table }) e && exists e.file_path d)
            es))
      ≡ true
    → has source (map (λ e. e.source) (retain (λ e. exists e.file_path d) es)) ≡ true
has-sources source table d [] h = cc
has-sources source table d (e ∷ es) h = ground (arith, has-sources source table d es)

module _ {Row Query : Type 0} where
  -- Where a table exists, its schema does.
  pub table_exist-schema_exists :
      (source name : Text) (s : Session Row Query)
      → table_exist source name s ≡ true
      → schema_exists source s ≡ true
  unfolding table_exist schema_exists namespace_path namespace_sources
  table_exist-schema_exists source name s h =
      has-dedup source _ ∙ has-sort source _ ∙ has-sources source name s.disk s.memory.entries h

module _ {Row Query : Type 0} (io : Io) (batches : List (List Row)) (e : ManifestEntry)
    (s : Session Row Query) where
  there : exists e.file_path (after_write io batches e s).disk ≡ true
  unfolding place_file
  there = ground (
    arith,
    file_at-place_file e.file_path e.file_path (parquet batches) s.disk,
    path_eq_iff e.file_path e.file_path,
  )

  namespace_path-after_write :
      namespace_path e.source e.table (after_write io batches e s) ≡ some e.file_path
  unfolding namespace_path insert_entry
  namespace_path-after_write = ap path_of (
      find-insert_entry (λ x. exists x.file_path (after_write io batches e s).disk) (sized io e)
        (read_manifest_disk io s.disk).entries
      ∙ ap (λ (b : Bool). if b then some (sized io e) else none) there)

module _ {Row Query : Type 0} where
  -- A table that was materialized, by calls of the system that succeeded, is found in the catalog of its
  -- namespace, with the rows that were written.
  pub materialize-table :
      (io : Io) (now : ℕ) (name : Text) (batches : List (List Row)) (spec : MaterializeSpec)
      (s : Session Row Query)
      → Works io
      → table materialized_schema name (materialize io now name batches spec s).1
        ≡ ok (some batches)
  unfolding table materialize open_snapshot
  materialize-table io now name batches spec s w =
      let e = materialized_entry now name (num_rows batches) spec in
      ap (λ r. table materialized_schema name r.1) (write_entry-ok io batches e s w)
      ∙ rw (namespace_path-after_write io batches e s, table)
          (rw (read_parquet-after_write io batches e s) refl)
