-- ===== src/Http/Json.antt =====
-- The values of the crate serde_json, with its methods that the source calls. A number is kept by the
-- text that its `to_string` prints; an object is a `BTreeMap`, since the crate is built without
-- `preserve_order`.
use pawrly.Prelude.{
  ℕ, zero, suc, Text, Bool, true, false, Option, none, some, List, [], ◌∷◌, if◌then◌else◌, text_eq,
  text_leb,
}

mutual
  pub data Value : Type 0 where
    null : Value
    bool : Bool → Value
    number : Text → Value
    string : Text → Value
    array : Items → Value
    object : Fields → Value

  pub data Items : Type 0 where
    nil : Items
    cons : Value → Items → Items

  pub data Fields : Type 0 where
    end : Fields
    field : Text → Value → Fields → Fields

abbrev pub to_list : Items → List Value
to_list nil = []
to_list (cons v vs) = v ∷ to_list vs

abbrev pub from_list : List Value → Items
from_list [] = nil
from_list (v ∷ vs) = cons v (from_list vs)

-- `Map::get`, `Map::insert` and `Map::remove`.
unfoldable pub field_of : Text → Fields → Option Value
field_of k end = none
field_of k (field j v fs) = if text_eq j k then some v else field_of k fs

unfoldable pub insert_field : Text → Value → Fields → Fields
insert_field k v end = field k v end
insert_field k v (field j w fs) =
    let rest = insert_field k v fs in
    if text_eq j k
    then field k v fs
    else if text_leb k j
    then field k v (field j w fs)
    else field j w rest

unfoldable pub remove_field : Text → Fields → Fields
remove_field k end = end
remove_field k (field j w fs) =
    let rest = remove_field k fs in if text_eq j k then fs else field j w rest

-- `Value::get` with a key, and with an index.
unfoldable pub get_key : Value → Text → Option Value
unfolding field_of
get_key (object fs) k = field_of k fs
get_key _ k = none

unfoldable pub item_at : ℕ → Items → Option Value
item_at i nil = none
item_at zero (cons v vs) = some v
item_at (suc i) (cons v vs) = item_at i vs

unfoldable pub get_index : Value → ℕ → Option Value
unfolding item_at
get_index (array vs) i = item_at i vs
get_index _ i = none

-- `is_null`, `is_array`, `as_array`, `as_str` and `as_bool`.
abbrev pub is_null : Value → Bool
is_null null = true
is_null _ = false

abbrev pub is_array : Value → Bool
is_array (array vs) = true
is_array _ = false

abbrev pub as_array : Value → Option (List Value)
as_array (array vs) = some (to_list vs)
as_array _ = none

abbrev pub as_str : Value → Option Text
as_str (string s) = some s
as_str _ = none

abbrev pub as_bool : Value → Option Bool
as_bool (bool b) = some b
as_bool _ = none
