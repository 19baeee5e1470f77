-- ===== src/Namespace/Registry.antt =====
-- `NamespaceRegistry` of crates/pawrly-engine/src/namespace.rs. What `CacheManager::new` makes of a
-- directory is that of the cache; here a manager is a handle with the name of its directory.
pub mod Reads
pub mod Memo
pub mod Removal
use pawrly.Prelude.{
  get, without, ℕ, ◌+◌, Text, Bool, true, false, ◌||◌, not, Option, none, some, List, [], ◌∷◌, ◌++◌,
  Result, ok, err, map, any, if◌then◌else◌, is_empty, text_eq, is_ok,
}
use pawrly.Namespace.Names.{
  NamespaceError, default_namespace, cache_init, drop_failed, validate_namespace,
}

-- A manager as one sees an `Arc` of it: which allocation it is, and the directory it works on.
pub record Manager : Type 0 where
  pub id : ℕ
  pub namespace : Text

-- The directories below the storage root, each with whether it holds `manifest.json`.
abbrev pub Root : Type 0
Root = List (Text × Bool)

-- `extra` is the map behind the lock; `root` is on the disk, and `made` counts the managers made.
pub record State : Type 0 where
  pub default_ns : Text
  pub default_cache : Manager
  pub extra : List (Text × Manager)
  pub root : Root
  pub made : ℕ

abbrev pub is_some : {A : Type 0} → Option A → Bool
is_some none = false
is_some (some a) = true

abbrev or_false : Option Bool → Bool
or_false none = false
or_false (some b) = b

-- `join("manifest.json").is_file()`
abbrev pub has_manifest : Text → Root → Bool
has_manifest ns root = or_false (get ns root)

-- `create_dir_all`: a new directory is empty.
unfoldable pub make_dir : Text → Root → Root
make_dir ns root = if is_some (get ns root) then root else (ns, false) ∷ root

unfoldable pub validated :
    Text → Result (Unit {0}) NamespaceError → Result (Option Text) NamespaceError
validated ns (err e) = err e
validated ns (ok _) = ok (some ns)

-- `none` stands for the default.
unfoldable pub normalize : State → Option Text → Result (Option Text) NamespaceError
unfolding validated
normalize s none = ok none
normalize s (some ns) =
    if is_empty ns || text_eq ns s.default_ns then ok none else validated ns (validate_namespace ns)

-- A manager made and memoized.
unfoldable pub create : Text → State → State
create ns s = record s {
  extra = (ns, record { id = s.made; namespace = ns }) ∷ s.extra;
  root = make_dir ns s.root;
  made = s.made + 1;
}

-- The second look under the write lock is the first one's, as no step is in between.
unfoldable pub open_memo :
    Bool → Text → State → Option Manager → Result Manager NamespaceError × State
unfolding create
open_memo created ns s (some c) = (ok c, s)
open_memo true ns s none = (ok (record { id = s.made; namespace = ns }), create ns s)
open_memo false ns s none = (err (cache_init ns), s)

unfoldable pub open_or_create : Bool → Text → State → Result Manager NamespaceError × State
unfolding open_memo
open_or_create created ns s = open_memo created ns s (get ns s.extra)

unfoldable pub existing :
    Result Manager NamespaceError × State → Result (Option Manager) NamespaceError × State
existing (err e, s) = (err e, s)
existing (ok c, s) = (ok (some c), s)

abbrev pub is_known : Text → State → Bool
is_known ns s = is_some (get ns s.extra) || has_manifest ns s.root

unfoldable pub open_existing : Bool → Text → State → Result (Option Manager) NamespaceError × State
unfolding open_or_create existing
open_existing created ns s =
    if is_known ns s then existing (open_or_create created ns s) else (ok none, s)

unfoldable pub write_to :
    Bool → State → Result (Option Text) NamespaceError → Result Manager NamespaceError × State
write_to created s (err e) = (err e, s)
write_to created s (ok none) = (ok s.default_cache, s)
write_to created s (ok (some ns)) = open_or_create created ns s

unfoldable pub for_write : Bool → Option Text → State → Result Manager NamespaceError × State
unfolding write_to
for_write created ns s = write_to created s (normalize s ns)

unfoldable pub read_from :
    Bool
    → State
    → Result (Option Text) NamespaceError
    → Result (Option Manager) NamespaceError × State
read_from created s (err e) = (err e, s)
read_from created s (ok none) = (ok (some s.default_cache), s)
read_from created s (ok (some ns)) = open_existing created ns s

unfoldable pub for_read :
    Bool → Option Text → State → Result (Option Manager) NamespaceError × State
unfolding read_from
for_read created ns s = read_from created s (normalize s ns)

-- `.ok().flatten()`
abbrev flatten : Result (Option Manager) NamespaceError → Option Manager
flatten (err e) = none
flatten (ok c) = c

unfoldable pub lookup : Bool → Text → State → Option Manager × State
lookup created ns s =
    if text_eq ns s.default_ns
    then (some s.default_cache, s)
    else if is_ok (validate_namespace ns)
    then (flatten (open_existing created ns s).0, (open_existing created ns s).1)
    else (none, s)

-- The part of `remove` after the checks: the memo goes, then the directory.
unfoldable pub remove_store : Bool → Text → State → Result Bool NamespaceError × State
remove_store deleted ns s =
    let s' = record s { extra = without ns s.extra } in
    if not (has_manifest ns s.root)
    then (ok (is_some (get ns s.extra)), s')
    else if deleted
    then (ok true, record s { extra = without ns s.extra; root = without ns s.root })
    else (err (drop_failed ns), s')

unfoldable pub remove_checked :
    Bool → Text → State → Result (Unit {0}) NamespaceError → Result Bool NamespaceError × State
unfolding remove_store
remove_checked deleted ns s (err e) = (err e, s)
remove_checked deleted ns s (ok _) = remove_store deleted ns s

unfoldable pub remove : Bool → Text → State → Result Bool NamespaceError × State
unfolding remove_checked
remove deleted ns s =
    if is_empty ns || text_eq ns s.default_ns
    then (err default_namespace, s)
    else remove_checked deleted ns s (validate_namespace ns)

-- The loop over the entries of the storage root.
unfoldable pub add_names : Text → List Text → Root → List Text
add_names default_ns names [] = names
add_names default_ns names ((name, manifest) ∷ root) =
    add_names default_ns
      (if text_eq name default_ns
          || any (text_eq name) names
          || not (is_ok (validate_namespace name))
        then names
        else if manifest
        then names ++ name ∷ []
        else names)
      root

unfoldable pub known_namespaces : State → List Text
unfolding add_names
known_namespaces s = add_names s.default_ns (map (λ x. x.0) s.extra) s.root
