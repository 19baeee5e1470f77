-- ===== src/Http/Fetch/Slices.antt =====
-- Lists of rows cut in pages, and the offsets of pages.
use Prim.Native.Nat.{min}
use pawrly.Prelude.{
  ℕ, zero, suc, ◌+◌, ◌-◌, ◌*◌, ◌≤◌, ◌<◌, ◌≡◌, refl, sym, ◌∙◌, ap, inl, inr, List, [], ◌∷◌, ◌++◌,
  length, length-append, arith, Bool-cases, leb,
}
use pawrly.Http.Json.{Value, from_list, to_list}
use pawrly.Http.Paginate.Next.{u64_max}

-- The first rows of a list, and the others.
abbrev pub take : ℕ → List Value → List Value
take zero rows = []
take (suc n) [] = []
take (suc n) (r ∷ rows) = r ∷ take n rows

abbrev pub drop : ℕ → List Value → List Value
drop zero rows = rows
drop (suc n) [] = []
drop (suc n) (r ∷ rows) = drop n rows

pub take-drop : (n : ℕ) (rows : List Value) → take n rows ++ drop n rows ≡ rows
take-drop zero rows = refl
take-drop (suc n) [] = refl
take-drop (suc n) (r ∷ rows) = ap (λ t. r ∷ t) (take-drop n rows)

pub drop-append : (xs ys : List Value) → drop (length xs) (xs ++ ys) ≡ ys
drop-append [] ys = refl
drop-append (x ∷ xs) ys = drop-append xs ys

-- A short page is the last one.
pub take_short : (n : ℕ) (rows : List Value) → length (take n rows) < n → take n rows ≡ rows
take_short zero rows h = absurd (omega arith)
take_short (suc n) [] h = refl
take_short (suc n) (r ∷ rows) h = ap (λ t. r ∷ t) (take_short n rows (omega arith))

pub length-take-drop :
    (n : ℕ) (rows : List Value) → length (take n rows) + length (drop n rows) ≡ length rows
length-take-drop n rows =
    sym (length-append (take n rows) (drop n rows)) ∙ ap length (take-drop n rows)

pub length-take-le : (n : ℕ) (rows : List Value) → length (take n rows) ≤ n
length-take-le zero rows = omega arith
length-take-le (suc n) [] = omega arith
length-take-le (suc n) (r ∷ rows) = omega (arith, length-take-le n rows)

pub to_list-from_list : (rows : List Value) → to_list (from_list rows) ≡ rows
to_list-from_list [] = refl
to_list-from_list (r ∷ rows) = ap (λ t. r ∷ t) (to_list-from_list rows)

pub append_assoc : (xs ys zs : List Value) → (xs ++ ys) ++ zs ≡ xs ++ (ys ++ zs)
append_assoc [] ys zs = refl
append_assoc (x ∷ xs) ys zs = ap (λ t. x ∷ t) (append_assoc xs ys zs)

pub le_mul : (a b : ℕ) → 0 < a → b ≤ a * b
le_mul zero b h = absurd (omega arith)
le_mul (suc a) b h = omega arith

pub below_cap : (size page cap : ℕ) → size * page < size * cap → page < cap
below_cap size page cap h = elim (Bool-cases (leb cap page)) [
  | inl t ↦
      let more : page ≡ cap + (page - cap) = ground arith in
      let product : size * page ≡ size * (cap + (page - cap)) = ap (λ n. size * n) more in
      absurd (omega (arith, h, product))
  | inr f ↦ ground arith
]

-- The next offset is computed without meeting the largest `u64`.
pub unsaturated :
    (size page : ℕ)
    → 0 < size
    → size * suc page ≤ u64_max
    → min (size * min (page + 1) u64_max) u64_max ≡ size * suc page
unsaturated size page h fits =
    let small : page + 1 ≤ u64_max = omega (arith, le_mul size (suc page) h, fits) in
    let inner : min (page + 1) u64_max ≡ suc page = omega arith in
    ap (λ n. min (size * n) u64_max) inner ∙ omega (arith, fits)
