-- ===== src/Namespace/Registry/Reads.antt =====
-- What a read of a namespace does to the store, and which manager a namespace has.
use pawrly.Prelude.{
  get, Text, ◌≡◌, refl, sym, ap, ◌∙◌, Bool, true, false, ◌||◌, Option, none, some, Result, ok, err,
  is_ok, text_eq, text_eq_refl, Bool-cases, inl, inr, arith,
}
use pawrly.Namespace.Names.{NamespaceError, validate_namespace}
use pawrly.Namespace.Registry.{
  Manager, Root, State, is_some, has_manifest, make_dir, normalize, create, open_memo,
  open_or_create, existing, is_known, open_existing, write_to, read_from, for_read, lookup,
}

-- A directory that holds a manifest is there.
make_dir-has_manifest :
    (ns : Text) (root : Root) → has_manifest ns root ≡ true → make_dir ns root ≡ root
unfolding make_dir
make_dir-has_manifest ns root h = ground arith

open_memo-root :
    (created : Bool) (ns : Text) (s : State) (memo : Option Manager)
    → is_some memo || has_manifest ns s.root ≡ true
    → (existing (open_memo created ns s memo)).1.root ≡ s.root
unfolding open_memo create existing
open_memo-root created ns s (some c) h = refl
open_memo-root true ns s none h = make_dir-has_manifest ns s.root h
open_memo-root false ns s none h = refl

open_existing-root :
    (created : Bool) (ns : Text) (s : State) → (open_existing created ns s).1.root ≡ s.root
unfolding open_existing open_or_create
open_existing-root created ns s = elim (Bool-cases (is_known ns s)) [
  | inl k ↦ rw (k, open_existing) (open_memo-root created ns s (get ns s.extra) k)
  | inr k ↦ rw (k, open_existing) refl
]

read_from-root :
    (created : Bool) (s : State) (r : Result (Option Text) NamespaceError)
    → (read_from created s r).1.root ≡ s.root
unfolding read_from
read_from-root created s (err e) = refl
read_from-root created s (ok none) = refl
read_from-root created s (ok (some ns)) = open_existing-root created ns s

-- No read and no lookup in the catalog, by whatever name, makes or removes a directory.
pub for_read-root :
    (created : Bool) (ns : Option Text) (name : Text) (s : State)
    → ((for_read created ns s).1.root ≡ s.root) × ((lookup created name s).1.root ≡ s.root)
unfolding for_read lookup
for_read-root created ns name s = (read_from-root created s (normalize s ns), looked)
  where
    looked : (lookup created name s).1.root ≡ s.root
    looked = elim (Bool-cases (text_eq name s.default_ns)) [
      | inl t ↦ rw (t, lookup) refl
      | inr t ↦ elim (Bool-cases (is_ok (validate_namespace name))) [
        | inl v ↦ rw (t, lookup) (rw v (open_existing-root created name s))
        | inr v ↦ rw (t, lookup) (rw v refl)
      ]
    ]

-- What a successful opening leaves: the manager under its name, and the default as it was.
opened :
    (created : Bool) (ns : Text) (s s' : State) (m : Manager) (memo : Option Manager)
    → get ns s.extra ≡ memo
    → open_memo created ns s memo ≡ (ok m, s')
    → (get ns s'.extra ≡ some m) × (s'.default_ns ≡ s.default_ns)
unfolding open_memo create get
opened created ns s s' m (some c) e h = (cc, cc)
opened true ns s s' m none e h = (
  ap (λ t. get ns t.extra) (sym after) ∙ rw (text_eq_refl ns) (ap some same),
  ap (λ t. t.default_ns) (sym after),
)
  where
    after : create ns s ≡ s'
    after = ap (λ r. r.1) h

    same : record { id = s.made; namespace = ns } ≡ m
    same = cc
opened false ns s s' m none e h = cc

pub normalize_common :
    (s s' : State) (ns : Option Text)
    → s'.default_ns ≡ s.default_ns
    → normalize s' ns ≡ normalize s ns
unfolding normalize
normalize_common s s' none e = refl
normalize_common s s' (some n) e = rw (e, normalize) refl

-- What a normalised name has a manager for: the default, or the memo.
unfoldable pub Holds : Manager → State → Result (Option Text) NamespaceError → Type 0
Holds m s (err e) = ⊥
Holds m s (ok none) = s.default_cache ≡ m
Holds m s (ok (some ns)) = get ns s.extra ≡ some m

pub write_to-Holds :
    (created : Bool) (s s' : State) (m : Manager) (r : Result (Option Text) NamespaceError)
    → write_to created s r ≡ (ok m, s')
    → Holds m s' r × (s'.default_ns ≡ s.default_ns)
unfolding Holds write_to open_or_create
write_to-Holds created s s' m (err e) h = cc
write_to-Holds created s s' m (ok none) h = (cc, cc)
write_to-Holds created s s' m (ok (some ns)) h = opened created ns s s' m (get ns s.extra) refl h

pub Holds-again :
    (created : Bool) (s : State) (m : Manager) (r : Result (Option Text) NamespaceError)
    → Holds m s r
    → (write_to created s r ≡ (ok m, s)) × (read_from created s r ≡ (ok (some m), s))
unfolding Holds write_to read_from open_existing open_or_create open_memo existing
Holds-again created s m (err e) h = absurd h
Holds-again created s m (ok none) h = (cc, cc)
Holds-again created s m (ok (some ns)) h = (rw (h, open_or_create) refl, rw (h, open_existing) refl)
