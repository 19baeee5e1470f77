-- ===== src/Cache/Listing/Found.antt =====
-- A listed name is found, and a name that is found is listed.
use pawrly.Prelude.{
  Text, ◌≡◌, ◌↔◌, refl, sym, ap, ◌∙◌, Bool, true, ◌&&◌, ◌||◌, some, List, [], ◌∷◌, map, retain, any,
  find, text_eq, text_eq_iff, Bool-cases, inl, inr, arith,
}
use pawrly.Cache.Types.{is_for, FilePath, ManifestEntry}
use pawrly.Cache.Disk.{Disk, exists}
use pawrly.Cache.Manager.{Session}
use pawrly.Cache.Listing.{insert, sort, push_new, dedup, path_of, namespace_tables, namespace_path}

-- Whether the list has the text.
abbrev pub has : Text → List Text → Bool
has t names = any (λ n. text_eq n t) names

has-insert :
    (t a : Text) (names : List Text) → has t (insert a names) ≡ (text_eq a t || has t names)
unfolding insert
has-insert t a [] = refl
has-insert t a (b ∷ bs) = ground (arith, has-insert t a bs)

pub has-sort : (t : Text) (names : List Text) → has t (sort names) ≡ has t names
unfolding sort
has-sort t [] = refl
has-sort t (a ∷ rest) = has-insert t a (sort rest) ∙ ap (λ b. text_eq a t || b) (has-sort t rest)

has-push_new :
    (t a : Text) (names : List Text) → has t (push_new a names) ≡ (text_eq a t || has t names)
unfolding push_new
has-push_new t a [] = refl
has-push_new t a (b ∷ bs) = elim (Bool-cases (text_eq a b)) [
  | inl e ↦ rw (e, push_new) (rw ((text_eq_iff a b).0 e) (ground arith))
  | inr n ↦ rw (n, push_new) refl
]

pub has-dedup : (t : Text) (names : List Text) → has t (dedup names) ≡ has t names
unfolding dedup
has-dedup t [] = refl
has-dedup t (a ∷ rest) =
    has-push_new t a (dedup rest) ∙ ap (λ b. text_eq a t || b) (has-dedup t rest)

-- The entries of the source whose file is there, and the one of them that is for the table.
has-tables :
    {Row : Type 0} (source table : Text) (d : Disk Row) (es : List ManifestEntry)
    → has table
        (map (λ e. e.table) (retain (λ e. text_eq e.source source && exists e.file_path d) es))
      ≡ any (λ e. is_for (record { schema = source; table = table }) e && exists e.file_path d) es
has-tables source table d [] = refl
has-tables source table d (e ∷ es) = ground (arith, has-tables source table d es)

found_iff :
    (test : ManifestEntry → Bool) (es : List ManifestEntry)
    → (any test es ≡ true) ↔ ((p : FilePath) × (path_of (find test es) ≡ some p))
found_iff test [] = (λ h. cc, λ (p, h). cc)
found_iff test (e ∷ es) = elim (Bool-cases (test e)) [
  | inl t ↦ rw t (λ h. (e.file_path, refl), λ h. refl)
  | inr f ↦ rw f (found_iff test es)
]

module _ {Row Query : Type 0} where
  -- A table is listed below a source exactly if there is a path for it, however old its entry is.
  pub namespace_tables-namespace_path :
      (source table : Text) (s : Session Row Query)
      → (has table (namespace_tables source s) ≡ true)
        ↔ ((p : FilePath) × (namespace_path source table s ≡ some p))
  unfolding namespace_tables namespace_path
  namespace_tables-namespace_path source table s =
      let test : ManifestEntry → Bool =
        λ e. is_for (record { schema = source; table = table }) e && exists e.file_path s.disk in
      let same =
        has-dedup table _ ∙ has-sort table _ ∙ has-tables source table s.disk s.memory.entries in
      let (f, g) = found_iff test s.memory.entries in (λ h. f (sym same ∙ h), λ h. same ∙ g h)
