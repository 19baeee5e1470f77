-- ===== src/Namespace/Registry/Removal/Confined.antt =====
-- No call, by whatever name, makes a manager or a directory outside of the storage root.
use pawrly.Prelude.{
  get, without, Text, ◌≡◌, refl, Bool, true, false, ◌||◌, Option, none, some, List, [], ◌∷◌, Result,
  ok, err, is_ok, All, is_empty, text_eq, Bool-cases, inl, inr,
}
use pawrly.Namespace.Names.{NamespaceError, validate_namespace}
use pawrly.Namespace.Names.Safe.{IsInside, validate_namespace-IsInside}
use pawrly.Namespace.Registry.{
  Manager, Root, State, make_dir, is_some, has_manifest, normalize, validated, create, open_memo,
  open_or_create, existing, is_known, open_existing, write_to, for_write, read_from, for_read,
  lookup, remove, remove_checked, remove_store,
}

-- Every name in the list is a single component below the root.
abbrev Inside : {A : Type 0} → List (Text × A) → Type 0
Inside xs = All (λ x. IsInside x.0) xs

-- The memoized managers and the directories lie directly below the root.
pub record IsConfined (s : State) : Type 0 where
  pub extra : Inside s.extra
  pub root : Inside s.root

without-Inside : {A : Type 0} (k : Text) (xs : List (Text × A)) → Inside xs → Inside (without k xs)
unfolding without
without-Inside k [] h = tt
without-Inside k ((j, a) ∷ xs) (i, h) = elim (Bool-cases (text_eq j k)) [
  | inl t ↦ rw (t, without) (without-Inside k xs h)
  | inr t ↦ rw (t, without) (i, without-Inside k xs h)
]

make_dir-Inside : (ns : Text) (root : Root) → IsInside ns → Inside root → Inside (make_dir ns root)
unfolding make_dir
make_dir-Inside ns root i h = elim (Bool-cases (is_some (get ns root))) [
  | inl t ↦ rw (t, make_dir) h
  | inr t ↦ rw (t, make_dir) (i, h)
]

open_memo-IsConfined :
    (created : Bool) (ns : Text) (s : State) (memo : Option Manager)
    → IsInside ns
    → IsConfined s
    → IsConfined (open_memo created ns s memo).1
unfolding open_memo create
open_memo-IsConfined created ns s (some c) i h = h
open_memo-IsConfined true ns s none i h = record {
  extra = (i, h.extra);
  root = make_dir-Inside ns s.root i h.root;
}
open_memo-IsConfined false ns s none i h = h

existing_state :
    (r : Result Manager NamespaceError × State) → IsConfined r.1 → IsConfined (existing r).1
unfolding existing
existing_state (err e, s) h = h
existing_state (ok c, s) h = h

open_existing-IsConfined :
    (created : Bool) (ns : Text) (s : State)
    → IsInside ns
    → IsConfined s
    → IsConfined (open_existing created ns s).1
unfolding open_existing open_or_create
open_existing-IsConfined created ns s i h = elim (Bool-cases (is_known ns s)) [
  | inl t ↦
      rw (t, open_existing)
        (existing_state _ (open_memo-IsConfined created ns s (get ns s.extra) i h))
  | inr t ↦ rw (t, open_existing) h
]

-- A name that the normalisation lets through is inside.
Valid : Result (Option Text) NamespaceError → Type 0
Valid (err e) = Unit
Valid (ok none) = Unit
Valid (ok (some ns)) = IsInside ns

validated-Valid :
    (ns : Text) (r : Result (Unit {0}) NamespaceError)
    → validate_namespace ns ≡ r
    → Valid (validated ns r)
unfolding validated Valid
validated-Valid ns (err e) h = tt
validated-Valid ns (ok _) h = validate_namespace-IsInside ns h

normalize-Valid : (s : State) (ns : Option Text) → Valid (normalize s ns)
unfolding normalize Valid
normalize-Valid s none = tt
normalize-Valid s (some ns) = elim (Bool-cases (is_empty ns || text_eq ns s.default_ns)) [
  | inl t ↦ rw (t, normalize) tt
  | inr t ↦ rw (t, normalize) (validated-Valid ns (validate_namespace ns) refl)
]

write_to-IsConfined :
    (created : Bool) (s : State) (r : Result (Option Text) NamespaceError)
    → Valid r
    → IsConfined s
    → IsConfined (write_to created s r).1
unfolding write_to Valid open_or_create
write_to-IsConfined created s (err e) v h = h
write_to-IsConfined created s (ok none) v h = h
write_to-IsConfined created s (ok (some ns)) v h =
    open_memo-IsConfined created ns s (get ns s.extra) v h

read_from-IsConfined :
    (created : Bool) (s : State) (r : Result (Option Text) NamespaceError)
    → Valid r
    → IsConfined s
    → IsConfined (read_from created s r).1
unfolding read_from Valid
read_from-IsConfined created s (err e) v h = h
read_from-IsConfined created s (ok none) v h = h
read_from-IsConfined created s (ok (some ns)) v h = open_existing-IsConfined created ns s v h

looked :
    (created : Bool) (ns : Text) (s : State) (v : Result (Unit {0}) NamespaceError)
    → validate_namespace ns ≡ v
    → IsConfined s
    → is_ok v ≡ true
    → IsConfined (open_existing created ns s).1
looked created ns s (err e) v h k = cc
looked created ns s (ok _) v h k =
    open_existing-IsConfined created ns s (validate_namespace-IsInside ns v) h

lookup-IsConfined :
    (created : Bool) (ns : Text) (s : State) → IsConfined s → IsConfined (lookup created ns s).1
unfolding lookup
lookup-IsConfined created ns s h = elim (Bool-cases (text_eq ns s.default_ns)) [
  | inl t ↦ rw (t, lookup) h
  | inr t ↦ elim (Bool-cases (is_ok (validate_namespace ns))) [
    | inl v ↦ rw (t, lookup) (rw v (looked created ns s (validate_namespace ns) refl h v))
    | inr v ↦ rw (t, lookup) (rw v h)
  ]
]

remove_store-IsConfined :
    (deleted : Bool) (ns : Text) (s : State)
    → IsConfined s
    → IsConfined (remove_store deleted ns s).1
unfolding remove_store
remove_store-IsConfined deleted ns s h = elim (Bool-cases (has_manifest ns s.root)) [
  | inr n ↦ rw (n, remove_store) memo
  | inl y ↦ elim (Bool-cases deleted) [
    | inr d ↦ rw (y, remove_store) (rw d memo)
    | inl d ↦
        rw (y, remove_store)
          (rw d (record { extra = memo.extra; root = without-Inside ns s.root h.root }))
  ]
]
  where
    memo : IsConfined (record s { extra = without ns s.extra })
    memo = record { extra = without-Inside ns s.extra h.extra; root = h.root }

remove-IsConfined :
    (deleted : Bool) (ns : Text) (s : State) → IsConfined s → IsConfined (remove deleted ns s).1
unfolding remove remove_checked
remove-IsConfined deleted ns s h = elim (Bool-cases (is_empty ns || text_eq ns s.default_ns)) [
  | inl t ↦ rw (t, remove) h
  | inr t ↦ rw (t, remove) (checked (validate_namespace ns))
]
  where
    checked : (v : Result (Unit {0}) NamespaceError) → IsConfined (remove_checked deleted ns s v).1
    checked (err e) = h
    checked (ok _) = remove_store-IsConfined deleted ns s h

-- A call of the registry: the flag is whether the system makes, or deletes, the directory.
pub data Call : Type 0 where
  write read : Bool → Option Text → Call
  look drop : Bool → Text → Call

unfoldable pub perform : State → Call → State
perform s (write done ns) = (for_write done ns s).1
perform s (read done ns) = (for_read done ns s).1
perform s (look done ns) = (lookup done ns s).1
perform s (drop done ns) = (remove done ns s).1

unfoldable pub run : State → List Call → State
run s [] = s
run s (c ∷ cs) = run (perform s c) cs

perform-IsConfined : (s : State) (c : Call) → IsConfined s → IsConfined (perform s c)
unfolding perform for_write for_read
perform-IsConfined s (write done ns) h =
    write_to-IsConfined done s (normalize s ns) (normalize-Valid s ns) h
perform-IsConfined s (read done ns) h =
    read_from-IsConfined done s (normalize s ns) (normalize-Valid s ns) h
perform-IsConfined s (look done ns) h = lookup-IsConfined done ns s h
perform-IsConfined s (drop done ns) h = remove-IsConfined done ns s h

-- After any calls, with whatever names, the memoized managers and the directories lie directly below
-- the storage root, if they did before.
pub run-IsConfined : (s : State) (calls : List Call) → IsConfined s → IsConfined (run s calls)
unfolding run
run-IsConfined s [] h = h
run-IsConfined s (c ∷ cs) h = run-IsConfined (perform s c) cs (perform-IsConfined s c h)
