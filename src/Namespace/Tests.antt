-- ===== src/Namespace/Tests.antt =====
-- Runs of the registry on a small store, and its theorems at concrete inputs.
use pawrly.Prelude.{
  get, without, Text, codes, ◌≡◌, ◌≢◌, ◌↔◌, refl, true, false, none, some, List, [], ◌∷◌, ok, All,
  any, is_ok, text_eq,
}
use pawrly.Namespace.Names.{
  is_ascii_alphanumeric, validate_namespace, reserved, sanitize_segment, is_clean,
}
use pawrly.Namespace.Names.Safe.{
  IsClean, IsInside, validate_namespace_iff, validate_namespace-IsInside,
}
use pawrly.Namespace.Registry.{
  Manager, State, create, make_dir, for_write, for_read, lookup, remove, remove_checked,
  remove_store, normalize, validated, write_to, open_or_create, open_memo, known_namespaces,
  add_names,
}
use pawrly.Namespace.Registry.Reads.{for_read-root}
use pawrly.Namespace.Registry.Memo.{Spares, for_write-again}
use pawrly.Namespace.Registry.Removal.{remove-for_read}
use pawrly.Namespace.Registry.Removal.Confined.{
  IsConfined, Call, write, read, look, drop, run, run-IsConfined,
}

abbrev name : Text
name = codes "team.a-1"

accepted : validate_namespace name ≡ ok tt
unfolding validate_namespace sanitize_segment is_clean is_ascii_alphanumeric text_eq
accepted = refl

parent_refused : is_ok (validate_namespace (codes "../x")) ≡ false
unfolding validate_namespace sanitize_segment is_clean is_ascii_alphanumeric text_eq
parent_refused = refl

abbrev main_cache : Manager
main_cache = record { id = 0; namespace = codes "main" }

abbrev fresh_start : State
fresh_start = record {
  default_ns = codes "main";
  default_cache = main_cache;
  extra = [];
  root = (codes "old", true) ∷ [];
  made = 1;
}

abbrev team : Manager
team = record { id = 1; namespace = name }

abbrev opened_state : State
opened_state = record {
  default_ns = codes "main";
  default_cache = main_cache;
  extra = (name, team) ∷ [];
  root = (name, false) ∷ (codes "old", true) ∷ [];
  made = 2;
}

for_write_run : for_write true (some name) fresh_start ≡ (ok team, opened_state)
unfolding for_write write_to normalize validated validate_namespace sanitize_segment is_clean
    is_ascii_alphanumeric text_eq open_or_create open_memo create get make_dir
for_write_run = refl

known_run : known_namespaces opened_state ≡ name ∷ codes "old" ∷ []
unfolding known_namespaces add_names validate_namespace sanitize_segment is_clean
    is_ascii_alphanumeric text_eq
known_run = refl

abbrev removed_state : State
removed_state = record {
  default_ns = codes "main";
  default_cache = main_cache;
  extra = [];
  root = (name, false) ∷ (codes "old", true) ∷ [];
  made = 2;
}

remove_run : remove true name opened_state ≡ (ok true, removed_state)
unfolding remove remove_checked remove_store validate_namespace sanitize_segment is_clean
    is_ascii_alphanumeric text_eq get without
remove_run = refl

validate_namespace_iff_example :
    (validate_namespace name ≡ ok tt)
    ↔ ((any is_ascii_alphanumeric name ≡ true) × All IsClean name × All (λ r. name ≢ r) reserved)
validate_namespace_iff_example = validate_namespace_iff name

validate_namespace-IsInside_example : IsInside name
validate_namespace-IsInside_example = validate_namespace-IsInside name accepted

for_read-root_example :
    ((for_read true (some name) fresh_start).1.root ≡ fresh_start.root)
    × ((lookup true (codes "../x") fresh_start).1.root ≡ fresh_start.root)
for_read-root_example = for_read-root true (some name) (codes "../x") fresh_start

-- Other namespaces are opened and removed in between.
abbrev between : List Call
between = write true (some (codes "ops")) ∷ drop true (codes "old") ∷ read true (some name) ∷ []

spares : All (Spares (some name)) between
unfolding text_eq
spares = (tt, (λ e. cc, (tt, tt)))

for_write-again_example :
    let t = run opened_state between in
    (for_write false (some name) t ≡ (ok team, t))
    × (for_read false (some name) t ≡ (ok (some team), t))
for_write-again_example =
    for_write-again true false (some name) fresh_start opened_state team between for_write_run
      spares

remove-for_read_example :
    (for_read true (some name) removed_state ≡ (ok none, removed_state))
    × (text_eq name opened_state.default_ns ≡ false)
remove-for_read_example = remove-for_read true true true name opened_state removed_state remove_run

old-IsInside : IsInside (codes "old")
unfolding validate_namespace sanitize_segment is_clean is_ascii_alphanumeric text_eq
old-IsInside = validate_namespace-IsInside (codes "old") refl

start-IsConfined : IsConfined fresh_start
start-IsConfined = record { extra = tt; root = (old-IsInside, tt) }

abbrev calls : List Call
calls = write true (some name) ∷ look true (codes "../x") ∷ drop true (codes "old") ∷ []

run-IsConfined_example : IsConfined (run fresh_start calls)
run-IsConfined_example = run-IsConfined fresh_start calls start-IsConfined
