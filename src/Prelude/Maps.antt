-- ===== src/Prelude/Maps.antt =====
-- Maps with texts as keys, as lists of pairs: Rust's `HashMap` as far as its order is not read, and
-- `BTreeMap`, whose keys are in order.
use mathlib.Core.Path.{◌≡◌, refl, sym, ◌∙◌}
use mathlib.Core.Logic.{◌≢◌}
use mathlib.Core.Logic.{inl, inr}
use mathlib.Core.Option.{Option, none, some}
use mathlib.Core.List.{List, [], ◌∷◌}
use native.Mathlib.Omega.{arith}
use mathlib.Core.Bool.{Bool, true, false, ◌&&◌, ◌||◌}
use pawrly.Prelude.Tests.{if◌then◌else◌, Bool-cases, false_of_not, ltb, ◌==◌}
use pawrly.Prelude.Strings.{Text, text_eq, text_eq_iff, text_eq_refl}

-- `HashMap::get`.
unfoldable pub get : {A : Type 0} → Text → List (Text × A) → Option A
get k [] = none
get k ((j, a) ∷ xs) = if text_eq j k then some a else get k xs

-- `HashMap::remove`.
unfoldable pub without : {A : Type 0} → Text → List (Text × A) → List (Text × A)
without k [] = []
without k ((j, a) ∷ xs) = let rest = without k xs in if text_eq j k then rest else (j, a) ∷ rest

pub get-without : {A : Type 0} (k : Text) (xs : List (Text × A)) → get k (without k xs) ≡ none
unfolding get without
get-without k [] = refl
get-without k ((j, a) ∷ xs) = elim (Bool-cases (text_eq j k)) [
  | inl t ↦ rw (t, without) (get-without k xs)
  | inr t ↦ rw (t, without) (rw (t, get) (get-without k xs))
]

-- `Ord` on strings: UTF-8 keeps the order of the code points.
unfoldable pub text_leb : Text → Text → Bool
text_leb [] t = true
text_leb (c ∷ s) [] = false
text_leb (c ∷ s) (d ∷ t) = ltb c d || (c == d && text_leb s t)

-- `BTreeMap::insert`.
unfoldable pub put : {A : Type 0} → Text → A → List (Text × A) → List (Text × A)
unfolding text_leb
put k v [] = (k, v) ∷ []
put k v ((j, w) ∷ m) =
    let rest = put k v m in
    if text_eq j k then (k, v) ∷ m else if text_leb k j then (k, v) ∷ (j, w) ∷ m else (j, w) ∷ rest

-- `contains_key`.
abbrev pub has_key : {A : Type 0} → Text → List (Text × A) → Bool
has_key k m = elim (get k m) [ none ↦ false | some v ↦ true ]

pub get-without_other :
    {A : Type 0} (k j : Text) (xs : List (Text × A)) → k ≢ j → get k (without j xs) ≡ get k xs
unfolding get without
get-without_other k j [] n = refl
get-without_other k j ((i, a) ∷ xs) n = elim (Bool-cases (text_eq i j)) [
  | inl t ↦
      rw (t, without)
        (rw
          (
            false_of_not (text_eq i k)
                (λ e. n (sym ((text_eq_iff i k).0 e) ∙ (text_eq_iff i j).0 t)),
            get,
          )
          (get-without_other k j xs n))
  | inr f ↦ rw (f, without) (ground (arith, get-without_other k j xs n))
]

pub get-put :
    {A : Type 0} (j k : Text) (v : A) (m : List (Text × A))
    → get j (put k v m) ≡ (if text_eq k j then some v else get j m)
unfolding get put
get-put j k v [] = refl
get-put j k v ((i, w) ∷ m) =
    ground (arith, text_eq_iff i k, text_eq_iff k j, text_eq_iff i j, get-put j k v m)

pub get-put-other :
    {A : Type 0} (j k : Text) (v : A) (m : List (Text × A)) → k ≢ j → get j (put k v m) ≡ get j m
get-put-other j k v m ne =
    rw (get-put j k v m, false_of_not (text_eq k j) (λ t. ne ((text_eq_iff k j).0 t))) refl

pub get-put-same :
    {A : Type 0} (k : Text) (v : A) (m : List (Text × A)) → get k (put k v m) ≡ some v
get-put-same k v m = rw (get-put k k v m, text_eq_refl k) refl
