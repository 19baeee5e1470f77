-- ===== src/Namespace/Registry/Removal.antt =====
-- What is left of a namespace that was removed, and that no call leads out of the storage root.
pub mod Confined
use pawrly.Prelude.{
  get, without, get-without, Text, ◌≡◌, refl, sym, ap, ◌∙◌, Bool, false, ◌||◌, none, some, [],
  Result, ok, err, is_empty, text_eq, Bool-cases, inl, inr, arith,
}
use pawrly.Namespace.Names.{NamespaceError, validate_namespace}
use pawrly.Namespace.Registry.{
  State, has_manifest, normalize, validated, open_existing, read_from, for_read, remove,
  remove_checked, remove_store,
}
use pawrly.Namespace.Registry.Reads.{normalize_common}

-- Nothing is known of the namespace.
record IsGone (ns : Text) (s : State) : Type 0 where
  memo : get ns s.extra ≡ none
  manifest : has_manifest ns s.root ≡ false

remove_store-IsGone :
    (deleted b : Bool) (ns : Text) (s s' : State)
    → remove_store deleted ns s ≡ (ok b, s')
    → IsGone ns s' × (s'.default_ns ≡ s.default_ns)
unfolding remove_store
remove_store-IsGone deleted b ns s s' h = elim (Bool-cases (has_manifest ns s.root)) [
  | inr n ↦
      let after : record s { extra = without ns s.extra } ≡ s' =
        ap (λ r. r.1) (rw (n, remove_store) at h) in
      (
        record {
          memo = ap (λ t. get ns t.extra) (sym after) ∙ get-without ns s.extra;
          manifest = ap (λ t. has_manifest ns t.root) (sym after) ∙ n;
        },
        ap (λ t. t.default_ns) (sym after),
      )
  | inl y ↦ elim (Bool-cases deleted) [
    | inr d ↦ cc (rw (y, remove_store) at h)
    | inl d ↦
        let after : record s { extra = without ns s.extra; root = without ns s.root } ≡ s' =
          ap (λ r. r.1) (rw d at (rw (y, remove_store) at h)) in
        (
          record {
            memo = ap (λ t. get ns t.extra) (sym after) ∙ get-without ns s.extra;
            manifest =
                ap (λ t. has_manifest ns t.root) (sym after) ∙ rw (get-without ns s.root) refl;
          },
          ap (λ t. t.default_ns) (sym after),
        )
  ]
]

gone_reads :
    (created : Bool) (ns : Text) (s : State)
    → IsGone ns s
    → open_existing created ns s ≡ (ok none, s)
unfolding open_existing
gone_reads created ns s g = rw (g.memo, open_existing) (rw g.manifest refl)

remove_checked-reads :
    (deleted created b : Bool) (ns : Text) (s s' : State) (v : Result (Unit {0}) NamespaceError)
    → remove_checked deleted ns s v ≡ (ok b, s')
    → (read_from created s' (validated ns v) ≡ (ok none, s')) × (s'.default_ns ≡ s.default_ns)
unfolding remove_checked validated read_from
remove_checked-reads deleted created b ns s s' (err e) h = cc
remove_checked-reads deleted created b ns s s' (ok _) h =
    let (gone, d) = remove_store-IsGone deleted b ns s s' h in (gone_reads created ns s' gone, d)

-- After a removal that succeeds, a read of the namespace finds nothing, and the default namespace is
-- never removed.
pub remove-for_read :
    (deleted created b : Bool) (ns : Text) (s s' : State)
    → remove deleted ns s ≡ (ok b, s')
    → (for_read created (some ns) s' ≡ (ok none, s')) × (text_eq ns s.default_ns ≡ false)
unfolding remove for_read normalize
remove-for_read deleted created b ns s s' h =
    elim (Bool-cases (is_empty ns || text_eq ns s.default_ns)) [
      | inl t ↦ cc (rw (t, remove) at h)
      | inr t ↦
          let (reads, d) =
            remove_checked-reads deleted created b ns s s' (validate_namespace ns)
              (rw (t, remove) at h) in
          (
            ap (read_from created s') (normalize_common s s' (some ns) d ∙ named t) ∙ reads,
            ground arith,
          )
    ]
  where
    named :
        is_empty ns || text_eq ns s.default_ns ≡ false
        → normalize s (some ns) ≡ validated ns (validate_namespace ns)
    named t = rw (t, normalize) refl
