-- ===== src/Cache/Manager/WellFormed.antt =====
-- The manifests that the program writes, and the changes that keep them so.
use mathlib.Core.Bool.{false≢true}
use pawrly.Prelude.{
  ◌≡◌, sym, ◌∙◌, Bool, true, false, not, inl, inr, none, List, [], ◌∷◌, ◌++◌, retain, All,
  All-append, All-retain, Bool-cases, false_of_not,
}
use pawrly.Cache.Types.{ManifestEntry, Manifest, is_for, is_materialized}
use pawrly.Cache.Manager.Keys.{is_for_iff}
use pawrly.Cache.Manager.{data_path, entry_key, take_first, insert_entry, remove_first}

-- No two entries are for one table.
abbrev pub HasUniqueKeys : List ManifestEntry → Type 0
HasUniqueKeys [] = Unit
HasUniqueKeys (e ∷ es) = All (λ x. is_for (entry_key e) x ≡ false) es × HasUniqueKeys es

HasUniqueKeys-retain :
    (p : ManifestEntry → Bool) (es : List ManifestEntry)
    → HasUniqueKeys es
    → HasUniqueKeys (retain p es)
HasUniqueKeys-retain p [] h = tt
HasUniqueKeys-retain p (e ∷ es) (a, h) = elim (Bool-cases (p e)) [
  | inl t ↦
      rw t (All-retain (λ x. is_for (entry_key e) x ≡ false) p es a, HasUniqueKeys-retain p es h)
  | inr t ↦ rw t (HasUniqueKeys-retain p es h)
]

is_for_sym : (e x : ManifestEntry) → is_for (entry_key e) x ≡ false → is_for (entry_key x) e ≡ false
is_for_sym e x h = false_of_not _ λ t.
    let (a, b) = (is_for_iff (entry_key x) e).0 t in
    false≢true (sym h ∙ (is_for_iff (entry_key e) x).1 (sym a, sym b))

HasUniqueKeys-concat :
    (e : ManifestEntry) (es : List ManifestEntry)
    → HasUniqueKeys es
    → All (λ x. is_for (entry_key e) x ≡ false) es
    → HasUniqueKeys (es ++ e ∷ [])
HasUniqueKeys-concat e [] h k = (tt, tt)
HasUniqueKeys-concat e (x ∷ es) (a, h) (n, k) = (
  All-append (λ y. is_for (entry_key x) y ≡ false) es (e ∷ []) a (is_for_sym e x n, tt),
  HasUniqueKeys-concat e es h k,
)

-- What `retain` keeps passes the test.
All-retain_self :
    (e : ManifestEntry) (es : List ManifestEntry)
    → All (λ x. is_for (entry_key e) x ≡ false) (retain (λ x. not (is_for (entry_key e) x)) es)
All-retain_self e [] = tt
All-retain_self e (x ∷ es) = elim (Bool-cases (is_for (entry_key e) x)) [
  | inl h ↦ rw h (All-retain_self e es)
  | inr h ↦ rw h (h, All-retain_self e es)
]

All-take_first {κ} :
    (P : ManifestEntry → Type κ) (p : ManifestEntry → Bool) (es : List ManifestEntry)
    → All P es
    → All P (take_first p es).1
unfolding take_first
All-take_first P p [] h = tt
All-take_first P p (e ∷ es) (a, h) = elim (Bool-cases (p e)) [
  | inl t ↦ rw t h
  | inr t ↦ rw t (a, All-take_first P p es h)
]

HasUniqueKeys-take_first :
    (p : ManifestEntry → Bool) (es : List ManifestEntry)
    → HasUniqueKeys es
    → HasUniqueKeys (take_first p es).1
unfolding take_first
HasUniqueKeys-take_first p [] h = tt
HasUniqueKeys-take_first p (e ∷ es) (a, h) = elim (Bool-cases (p e)) [
  | inl t ↦ rw t h
  | inr t ↦
      rw t (
        All-take_first (λ x. is_for (entry_key e) x ≡ false) p es a,
        HasUniqueKeys-take_first p es h,
      )
]

-- An entry lies where its table's data lies, and a materialized one has no expiry.
pub record IsPlaced (e : ManifestEntry) : Type 0 where
  pub path : e.file_path ≡ data_path (entry_key e)
  pub pinned : is_materialized e.origin ≡ true → e.expires_at ≡ none

-- A manifest that the program has written.
pub record IsWellFormed (m : Manifest) : Type 0 where
  pub unique : HasUniqueKeys m.entries
  pub placed : All IsPlaced m.entries

pub insert_entry-IsWellFormed :
    (e : ManifestEntry) (m : Manifest)
    → IsPlaced e
    → IsWellFormed m
    → IsWellFormed (insert_entry e m)
unfolding insert_entry
insert_entry-IsWellFormed e m p w =
    let other = λ (x : ManifestEntry). not (is_for (entry_key e) x) in
    record {
      unique =
          HasUniqueKeys-concat e _ (HasUniqueKeys-retain other m.entries w.unique)
            (All-retain_self e m.entries);
      placed =
          All-append IsPlaced (retain other m.entries) (e ∷ [])
            (All-retain IsPlaced other m.entries w.placed) (p, tt);
    }

pub remove_first-IsWellFormed :
    (p : ManifestEntry → Bool) (m : Manifest) → IsWellFormed m → IsWellFormed (remove_first p m).1
unfolding remove_first
remove_first-IsWellFormed p m w = record {
  unique = HasUniqueKeys-take_first p m.entries w.unique;
  placed = All-take_first IsPlaced p m.entries w.placed;
}

pub retain-IsWellFormed :
    (p : ManifestEntry → Bool) (m : Manifest)
    → IsWellFormed m
    → IsWellFormed (record m { entries = retain p m.entries })
retain-IsWellFormed p m w = record {
  unique = HasUniqueKeys-retain p m.entries w.unique;
  placed = All-retain IsPlaced p m.entries w.placed;
}
