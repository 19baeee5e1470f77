-- ===== src/Cache/Manager/Keys.antt =====
-- The manifest as a map from tables to entries, and what each change of it keeps.

use mathlib.Core.Path.{subst}
use pawrly.Prelude.{
  ◌≡◌, refl, sym, ◌∙◌, ◌↔◌, Bool, true, false, not, inl, inr, Option, some, List, [], ◌∷◌, ◌++◌,
  if◌then◌else◌, text_eq_iff, find, retain, some_inj, All, arith, &&-eq-true, Bool-cases,
}
use pawrly.Cache.Types.{TableName, ManifestEntry, Manifest, is_for}
use pawrly.Cache.Manager.{entry_key, take_first, insert_entry}

pub is_for_iff :
    (k : TableName) (e : ManifestEntry)
    → (is_for k e ≡ true) ↔ ((e.source ≡ k.schema) × (e.table ≡ k.table))
is_for_iff k e =
    let (f, f') = text_eq_iff e.source k.schema in
    let (g, g') = text_eq_iff e.table k.table in
    (λ h. let (a, b) = &&-eq-true _ _ h in (f a, g b), λ (a, b). ground (arith, f' a, g' b))

-- Entries for one table are for the same tables.
pub is_for_congr :
    (k : TableName) (e x : ManifestEntry) → is_for (entry_key e) x ≡ true → is_for k x ≡ is_for k e
is_for_congr k e x h = let (a, b) = (is_for_iff (entry_key e) x).0 h in cc

-- Two entries for one table.
pub is_for_common :
    (k : TableName) (e x : ManifestEntry)
    → is_for k x ≡ true
    → is_for k e ≡ true
    → is_for (entry_key e) x ≡ true
is_for_common k e x h g =
    let (a, b) = (is_for_iff k x).0 h in
    let (c, d) = (is_for_iff k e).0 g in (is_for_iff (entry_key e) x).1 (a ∙ sym c, b ∙ sym d)

pub is_for_self : (e : ManifestEntry) → is_for (entry_key e) e ≡ true
is_for_self e = (is_for_iff (entry_key e) e).1 (refl, refl)

-- The entry of a table: the first for it.
abbrev pub entry_for : TableName → List ManifestEntry → Option ManifestEntry
entry_for k es = find (is_for k) es

entry_for-append :
    (k : TableName) (e : ManifestEntry) (es : List ManifestEntry)
    → entry_for k (retain (λ x. not (is_for (entry_key e) x)) es ++ e ∷ [])
      ≡ (if is_for k e then some e else entry_for k es)
entry_for-append k e [] = refl
entry_for-append k e (x ∷ es) = elim (Bool-cases (is_for (entry_key e) x)) [
  | inl h ↦ rw (h, entry_for-append k e es) (rw (is_for_congr k e x h) (ground arith))
  | inr h ↦ rw (h, entry_for-append k e es) (ground (arith, is_for_common k e x))
]

-- After an insertion a table's entry is the new one, if it is for the table, and else the old one.
pub entry_for-insert_entry :
    (k : TableName) (e : ManifestEntry) (m : Manifest)
    → entry_for k (insert_entry e m).entries
      ≡ (if is_for k e then some e else entry_for k m.entries)
unfolding insert_entry
entry_for-insert_entry k e m = entry_for-append k e m.entries

-- An entry that passes the test is still its table's entry after `retain`.
pub entry_for-retain :
    (k : TableName) (p : ManifestEntry → Bool) (es : List ManifestEntry) (e : ManifestEntry)
    → p e ≡ true
    → entry_for k es ≡ some e
    → entry_for k (retain p es) ≡ some e
entry_for-retain k p [] e t h = h
entry_for-retain k p (x ∷ es) e t h = elim (Bool-cases (is_for k x)) [
  | inl f ↦ let same : x ≡ e = some_inj (rw f at h) in rw (same, t, ← same, f)
  | inr f ↦
      let ih = entry_for-retain k p es e t (rw f at h) in
      elim (Bool-cases (p x)) [ inl u ↦ rw (u, f) ih | inr u ↦ rw u ih ]
]

-- An entry that fails the test is still its table's entry after `take_first`.
pub entry_for-take_first :
    (k : TableName) (p : ManifestEntry → Bool) (es : List ManifestEntry) (e : ManifestEntry)
    → p e ≡ false
    → entry_for k es ≡ some e
    → entry_for k (take_first p es).1 ≡ some e
unfolding take_first
entry_for-take_first k p [] e t h = h
entry_for-take_first k p (x ∷ es) e t h = elim (Bool-cases (is_for k x)) [
  | inl f ↦ let same : x ≡ e = some_inj (rw f at h) in rw (same, t, ← same, f)
  | inr f ↦
      let ih = entry_for-take_first k p es e t (rw f at h) in
      elim (Bool-cases (p x)) [ inl u ↦ rw u (rw f at h) | inr u ↦ rw (u, f) ih ]
]

-- The entry found is for the table.
pub entry_for-is_for :
    (k : TableName) (e : ManifestEntry) (es : List ManifestEntry)
    → entry_for k es ≡ some e
    → is_for k e ≡ true
entry_for-is_for k e [] h = cc
entry_for-is_for k e (x ∷ es) h = ground (arith, entry_for-is_for k e es)

-- What holds of every entry holds of the one found.
pub All-entry_for {κ} :
    (P : ManifestEntry → Type κ) (k : TableName) (e : ManifestEntry) (es : List ManifestEntry)
    → All P es
    → entry_for k es ≡ some e
    → P e
All-entry_for P k e [] a h = cc
All-entry_for P k e (x ∷ es) (p, a) h = elim (Bool-cases (is_for k x)) [
  | inl t ↦ subst P (some_inj (rw t at h)) p
  | inr t ↦ All-entry_for P k e es a (rw t at h)
]
