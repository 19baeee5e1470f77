-- ===== src/Http/Paginate/JsonPath/Laws.antt =====
-- What is written at a path is read there.
use pawrly.Prelude.{
  ℕ, ◌==◌, Text, codes, ◌≡◌, refl, ap, ◌∙◌, Bool, true, false, ◌&&◌, not, none, some, List, [], ◌∷◌,
  retain, is_empty, text_eq, text_eq_iff, text_eq_refl, trim_start_matches, split, onto_first,
  cut_at, contains_char, Bool-cases, All, inl, inr, arith,
}
use pawrly.Http.Json.{
  Value, null, bool, number, string, array, object, Fields, end, field, get_key, field_of,
  insert_field,
}
use pawrly.Http.Paginate.JsonPath.{
  trim_dollar_dots, parts_of, entry_or_object, set_at, set_json_at_path, get_key_or_index,
  indices_within, segment_get, walk_parts, json_at_path,
}

pub field_of-insert_field :
    (k : Text) (v : Value) (fs : Fields) → field_of k (insert_field k v fs) ≡ some v
unfolding field_of insert_field
field_of-insert_field k v end = rw (text_eq_refl k) refl
field_of-insert_field k v (field j w fs) =
    ground (arith, text_eq_refl k, field_of-insert_field k v fs)

-- A name without a bracket is one key.
IsPlain : Text → Type 0
IsPlain p = contains_char b'[' p ≡ false

cut_at-plain : (d : ℕ) (p : Text) → contains_char d p ≡ false → cut_at d p ≡ (p, [])
unfolding cut_at contains_char
cut_at-plain d [] h = refl
cut_at-plain d (c ∷ s) h = elim (Bool-cases (c == d)) [
  | inl t ↦ ground arith
  | inr f ↦ rw (f, cut_at) (rw (cut_at-plain d s (ground arith)) refl)
]

segment_get-plain :
    (p : Text) (fs : Fields) (v : Value)
    → IsPlain p
    → is_empty p ≡ false
    → field_of p fs ≡ some v
    → segment_get (object fs) p ≡ some v
unfolding segment_get IsPlain get_key_or_index get_key indices_within
segment_get-plain p fs v plain named here =
    rw (cut_at-plain b'[' p plain, segment_get)
      (rw named (rw here (rw (cut_at-plain b'[' p plain) refl)))

-- The names that are not empty are what a walk follows.
walk_parts-retain :
    (ps : List Text) (v : Value)
    → walk_parts ps v ≡ walk_parts (retain (λ p. not (is_empty p)) ps) v
unfolding walk_parts
walk_parts-retain [] v = refl
walk_parts-retain ([] ∷ ps) v = walk_parts-retain ps v
walk_parts-retain ((c ∷ p) ∷ ps) v =
    λ i. elim (segment_get v (c ∷ p)) [ none ↦ none | some w ↦ walk_parts-retain ps w i ]

IsName : Text → Type 0
IsName p = (contains_char b'[' p ≡ false) × (is_empty p ≡ false)

walk_parts-set_at :
    (ps : List Text) (leaf v : Value)
    → All IsName ps
    → (set_at ps leaf v).0 ≡ true
    → walk_parts ps (set_at ps leaf v).1 ≡ some leaf
unfolding set_at walk_parts IsName IsPlain
walk_parts-set_at [] leaf v names h = refl
walk_parts-set_at (p ∷ ps) leaf (object fs) ((plain, named), names) h =
    let w = (set_at ps leaf (entry_or_object p fs)).1 in
    let here : segment_get (object (insert_field p w fs)) p ≡ some w =
      segment_get-plain p (insert_field p w fs) w plain named (field_of-insert_field p w fs) in
    rw (named, walk_parts) (rw here (walk_parts-set_at ps leaf (entry_or_object p fs) names h))
walk_parts-set_at (p ∷ ps) leaf null names h = cc
walk_parts-set_at (p ∷ ps) leaf (bool b) names h = cc
walk_parts-set_at (p ∷ ps) leaf (number n) names h = cc
walk_parts-set_at (p ∷ ps) leaf (string s) names h = cc
walk_parts-set_at (p ∷ ps) leaf (array vs) names h = cc

-- Trimming and splitting put no bracket in.
trim_dollar_dots-IsPlain : (s : Text) → IsPlain s → IsPlain (trim_dollar_dots s)
unfolding IsPlain trim_dollar_dots contains_char
trim_dollar_dots-IsPlain [] h = h
trim_dollar_dots-IsPlain (c ∷ []) h = h
trim_dollar_dots-IsPlain (c ∷ d ∷ s) h = elim (Bool-cases (c == b'$' && d == b'.')) [
  | inl t ↦ rw (t, trim_dollar_dots) (trim_dollar_dots-IsPlain s (ground arith))
  | inr f ↦ rw (f, trim_dollar_dots) h
]

trim_start_matches-IsPlain :
    (p : ℕ → Bool) (s : Text) → IsPlain s → IsPlain (trim_start_matches p s)
unfolding IsPlain trim_start_matches contains_char
trim_start_matches-IsPlain p [] h = h
trim_start_matches-IsPlain p (c ∷ s) h = elim (Bool-cases (p c)) [
  | inl t ↦ rw (t, trim_start_matches) (trim_start_matches-IsPlain p s (ground arith))
  | inr f ↦ rw (f, trim_start_matches) h
]

onto_first-IsPlain :
    (c : ℕ) (ts : List Text) → (b'[' == c) ≡ false → All IsPlain ts → All IsPlain (onto_first c ts)
unfolding IsPlain contains_char
onto_first-IsPlain c [] n h = (rw n refl, tt)
onto_first-IsPlain c (t ∷ ts) n (p, h) = (rw n p, h)

split-IsPlain : (d : ℕ) (s : Text) → IsPlain s → All IsPlain (split d s)
unfolding split IsPlain contains_char
split-IsPlain d [] h = (refl, tt)
split-IsPlain d (c ∷ s) h = elim (Bool-cases (c == d)) [
  | inl t ↦ rw (t, split) (refl, split-IsPlain d s (ground arith))
  | inr f ↦
      rw (f, split)
        (onto_first-IsPlain c (split d s) (ground arith) (split-IsPlain d s (ground arith)))
]

names_of_plain : (ps : List Text) → All IsPlain ps → All IsName (retain (λ p. not (is_empty p)) ps)
unfolding IsName IsPlain
names_of_plain [] h = tt
names_of_plain ([] ∷ ps) (p, h) = names_of_plain ps h
names_of_plain ((c ∷ q) ∷ ps) (p, h) = ((p, refl), names_of_plain ps h)

-- After a value was written at a path that has no index and that nothing blocked, the path leads to it.
pub json_at_path-set_json_at_path :
    (root leaf : Value) (path : Text)
    → contains_char b'[' path ≡ false
    → (set_json_at_path root path leaf).0 ≡ true
    → json_at_path (set_json_at_path root path leaf).1 path ≡ some leaf
unfolding json_at_path set_json_at_path parts_of
json_at_path-set_json_at_path root leaf path plain done =
    elim (Bool-cases (text_eq path (codes "$"))) [
      | inl t ↦ rw (t, json_at_path) (ap some (whole path ((text_eq_iff path (codes "$")).0 t)))
      | inr f ↦ rw (f, json_at_path) walked
    ]
  where
    whole : (q : Text) → q ≡ codes "$" → (set_json_at_path root q leaf).1 ≡ leaf
    whole q e = ap (λ p. (set_json_at_path root p leaf).1) e ∙ refl

    parts : List Text
    parts = split b'.' (trim_start_matches (λ c. c == b'$') (trim_dollar_dots path))

    plain_parts : All IsPlain parts
    plain_parts = split-IsPlain b'.' _ (
        trim_start_matches-IsPlain (λ c. c == b'$') _
          (trim_dollar_dots-IsPlain path (unfold IsPlain in plain)))

    walked : walk_parts parts (set_json_at_path root path leaf).1 ≡ some leaf
    walked =
        walk_parts-retain parts (set_json_at_path root path leaf).1
        ∙ walk_parts-set_at (retain (λ p. not (is_empty p)) parts) leaf root
            (names_of_plain parts plain_parts) done
