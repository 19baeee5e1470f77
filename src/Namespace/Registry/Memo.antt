-- ===== src/Namespace/Registry/Memo.antt =====
-- A manager stays memoized until its namespace is removed (`for_write`, `for_read` and `remove` of
-- crates/pawrly-engine/src/namespace.rs).
use mathlib.Core.Path.{subst}
use pawrly.Prelude.{
  get, without, get-without_other, Text, ◌≡◌, ◌≢◌, refl, sym, ap, ◌∙◌, Bool, true, false, ◌||◌,
  Option, none, some, List, [], ◌∷◌, Result, ok, err, is_ok, All, is_empty, text_eq, text_eq_iff,
  Bool-cases, inl, inr,
}
use pawrly.Namespace.Names.{NamespaceError, validate_namespace}
use pawrly.Namespace.Registry.{
  Manager, State, has_manifest, normalize, validated, create, open_memo, open_or_create, existing,
  is_known, open_existing, write_to, for_write, read_from, for_read, lookup, remove, remove_checked,
  remove_store,
}
use pawrly.Namespace.Registry.Reads.{normalize_common, Holds, write_to-Holds, Holds-again}
use pawrly.Namespace.Registry.Removal.Confined.{Call, write, read, look, drop, perform, run}

-- From the one state to the other the default and the memo of the name stay.
record Keeps (ns : Option Text) (s t : State) : Type 0 where
  default_ns : t.default_ns ≡ s.default_ns
  default_cache : t.default_cache ≡ s.default_cache
  memo : (n : Text) (m : Manager) → ns ≡ some n → get n s.extra ≡ some m → get n t.extra ≡ some m

same : (ns : Option Text) (s : State) → Keeps ns s s
same ns s = record { default_ns = refl; default_cache = refl; memo = λ n m e h. h }

created_memo :
    (ns : Text) (s : State) (c : Manager) (n : Text) (m : Manager)
    → get ns s.extra ≡ none
    → get n s.extra ≡ some m
    → get n ((ns, c) ∷ s.extra) ≡ some m
unfolding get
created_memo ns s c n m e h = elim (Bool-cases (text_eq ns n)) [
  | inr f ↦ rw f h
  | inl t ↦
      let other : get n s.extra ≡ none =
        subst (λ j. get j s.extra ≡ none) ((text_eq_iff ns n).0 t) e in
      cc
]

module _ (ns : Option Text) where
  open_memo-Keeps :
      (created : Bool) (name : Text) (s : State) (memo : Option Manager)
      → get name s.extra ≡ memo
      → Keeps ns s (open_memo created name s memo).1
  unfolding open_memo create
  open_memo-Keeps created name s (some c) e = same ns s
  open_memo-Keeps true name s none e = record {
    default_ns = refl;
    default_cache = refl;
    memo = λ n m _ h. created_memo name s _ n m e h;
  }
  open_memo-Keeps false name s none e = same ns s

  existing-Keeps :
      (s : State) (r : Result Manager NamespaceError × State)
      → Keeps ns s r.1
      → Keeps ns s (existing r).1
  unfolding existing
  existing-Keeps s (err e, t) h = h
  existing-Keeps s (ok c, t) h = h

  open_existing-Keeps :
      (created : Bool) (name : Text) (s : State) → Keeps ns s (open_existing created name s).1
  unfolding open_existing open_or_create
  open_existing-Keeps created name s = elim (Bool-cases (is_known name s)) [
    | inl t ↦
        rw (t, open_existing)
          (existing-Keeps s _ (open_memo-Keeps created name s (get name s.extra) refl))
    | inr t ↦ rw (t, open_existing) (same ns s)
  ]

  write_to-Keeps :
      (created : Bool) (s : State) (r : Result (Option Text) NamespaceError)
      → Keeps ns s (write_to created s r).1
  unfolding write_to open_or_create
  write_to-Keeps created s (err e) = same ns s
  write_to-Keeps created s (ok none) = same ns s
  write_to-Keeps created s (ok (some name)) = open_memo-Keeps created name s (get name s.extra) refl

  read_from-Keeps :
      (created : Bool) (s : State) (r : Result (Option Text) NamespaceError)
      → Keeps ns s (read_from created s r).1
  unfolding read_from
  read_from-Keeps created s (err e) = same ns s
  read_from-Keeps created s (ok none) = same ns s
  read_from-Keeps created s (ok (some name)) = open_existing-Keeps created name s

  lookup-Keeps : (created : Bool) (name : Text) (s : State) → Keeps ns s (lookup created name s).1
  unfolding lookup
  lookup-Keeps created name s = elim (Bool-cases (text_eq name s.default_ns)) [
    | inl t ↦ rw (t, lookup) (same ns s)
    | inr t ↦ elim (Bool-cases (is_ok (validate_namespace name))) [
      | inl v ↦ rw (t, lookup) (rw v (open_existing-Keeps created name s))
      | inr v ↦ rw (t, lookup) (rw v (same ns s))
    ]
  ]

  remove_store-Keeps :
      (deleted : Bool) (name : Text) (s : State)
      → ns ≢ some name
      → Keeps ns s (remove_store deleted name s).1
  unfolding remove_store
  remove_store-Keeps deleted name s other = elim (Bool-cases (has_manifest name s.root)) [
    | inr n ↦ rw (n, remove_store) without_memo
    | inl y ↦ elim (Bool-cases deleted) [
      | inr d ↦ rw (y, remove_store) (rw d without_memo)
      | inl d ↦
          rw (y, remove_store)
            (rw d (record { default_ns = refl; default_cache = refl; memo = without_memo.memo }))
    ]
  ]
    where
      without_memo : Keeps ns s (record s { extra = without name s.extra })
      without_memo = record {
        default_ns = refl;
        default_cache = refl;
        memo = λ n m e h. get-without_other n name s.extra (λ k. other (e ∙ ap some k)) ∙ h;
      }

  remove-Keeps :
      (deleted : Bool) (name : Text) (s : State)
      → ns ≢ some name
      → Keeps ns s (remove deleted name s).1
  unfolding remove remove_checked
  remove-Keeps deleted name s other =
      elim (Bool-cases (is_empty name || text_eq name s.default_ns)) [
        | inl t ↦ rw (t, remove) (same ns s)
        | inr t ↦ rw (t, remove) (checked (validate_namespace name))
      ]
    where
      checked :
          (v : Result (Unit {0}) NamespaceError) → Keeps ns s (remove_checked deleted name s v).1
      checked (err e) = same ns s
      checked (ok _) = remove_store-Keeps deleted name s other

-- The call does not remove the namespace.
abbrev pub Spares : Option Text → Call → Type 0
Spares ns (drop done name) = ns ≢ some name
Spares ns _ = Unit

perform-Keeps : (ns : Option Text) (s : State) (c : Call) → Spares ns c → Keeps ns s (perform s c)
unfolding perform for_write for_read
perform-Keeps ns s (write done name) o = write_to-Keeps ns done s (normalize s name)
perform-Keeps ns s (read done name) o = read_from-Keeps ns done s (normalize s name)
perform-Keeps ns s (look done name) o = lookup-Keeps ns done name s
perform-Keeps ns s (drop done name) o = remove-Keeps ns done name s o

-- A name that is normalised to itself is the one that was given.
Names : Option Text → Result (Option Text) NamespaceError → Type 0
Names ns (err e) = Unit
Names ns (ok none) = Unit
Names ns (ok (some n)) = ns ≡ some n

validated-Names : (n : Text) (v : Result (Unit {0}) NamespaceError) → Names (some n) (validated n v)
unfolding Names validated
validated-Names n (err e) = tt
validated-Names n (ok _) = refl

normalize-Names : (s : State) (ns : Option Text) → Names ns (normalize s ns)
unfolding normalize Names
normalize-Names s none = tt
normalize-Names s (some n) = elim (Bool-cases (is_empty n || text_eq n s.default_ns)) [
  | inl t ↦ rw (t, normalize) tt
  | inr t ↦ rw (t, normalize) (validated-Names n (validate_namespace n))
]

Holds-Keeps :
    (ns : Option Text) (s t : State) (m : Manager) (r : Result (Option Text) NamespaceError)
    → Names ns r
    → Keeps ns s t
    → Holds m s r
    → Holds m t r
unfolding Holds Names
Holds-Keeps ns s t m (err e) n k h = h
Holds-Keeps ns s t m (ok none) n k h = k.default_cache ∙ h
Holds-Keeps ns s t m (ok (some name)) n k h = k.memo name m n h

run-Holds :
    (ns : Option Text) (m : Manager) (s : State) (calls : List Call)
    → All (Spares ns) calls
    → Holds m s (normalize s ns)
    → Holds m (run s calls) (normalize (run s calls) ns)
unfolding run
run-Holds ns m s [] o h = h
run-Holds ns m s (c ∷ cs) (o, os) h =
    let k = perform-Keeps ns s c o in
    run-Holds ns m (perform s c) cs os (
      subst (Holds m (perform s c)) (sym (normalize_common s (perform s c) ns k.default_ns))
        (Holds-Keeps ns s (perform s c) m (normalize s ns) (normalize-Names s ns) k h))

-- Once a write has opened a namespace, and after any further calls that do not remove it, a write and a
-- read of it get the same manager, and change nothing.
pub for_write-again :
    (created again : Bool) (ns : Option Text) (s s' : State) (m : Manager) (calls : List Call)
    → for_write created ns s ≡ (ok m, s')
    → All (Spares ns) calls
    → let t = run s' calls in
      (for_write again ns t ≡ (ok m, t)) × (for_read again ns t ≡ (ok (some m), t))
unfolding for_write for_read
for_write-again created again ns s s' m calls h spares =
    let (kept, d) = write_to-Holds created s s' m (normalize s ns) h in
    let first : Holds m s' (normalize s' ns) =
      subst (Holds m s') (sym (normalize_common s s' ns d)) kept in
    Holds-again again (run s' calls) m (normalize (run s' calls) ns)
      (run-Holds ns m s' calls spares first)
