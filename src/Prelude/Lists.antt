-- ===== src/Prelude/Lists.antt =====
-- Lists over the native numbers, with Boolean tests, under the library's names.
use Prim.Native.Nat.{ℕ, suc, ◌+◌}
use mathlib.Core.Path.{◌≡◌, refl, ap}
use mathlib.Core.Logic.{◌↔◌}
use mathlib.Core.Bool.{Bool, true, false, ◌&&◌, ◌||◌}
use mathlib.Core.Option.{Option, none, some}
use mathlib.Core.List.{List, [], ◌∷◌, ◌++◌, map}
use native.Mathlib.Omega.{arith}
use pawrly.Prelude.Tests.{if◌then◌else◌}

module _ {ℓ} {A : Type ℓ} where
  abbrev pub length : List A → ℕ
  length [] = 0
  length (x ∷ xs) = suc (length xs)

  abbrev pub is_empty : List A → Bool
  is_empty [] = true
  is_empty (x ∷ xs) = false

  abbrev pub any : (A → Bool) → List A → Bool
  any p [] = false
  any p (x ∷ xs) = p x || any p xs

  abbrev pub all : (A → Bool) → List A → Bool
  all p [] = true
  all p (x ∷ xs) = p x && all p xs

  -- `Iterator::find`.
  abbrev pub find : (A → Bool) → List A → Option A
  find p [] = none
  find p (x ∷ xs) = if p x then some x else find p xs

  -- `Vec::retain` and `Iterator::filter`.
  abbrev pub retain : (A → Bool) → List A → List A
  retain p [] = []
  retain p (x ∷ xs) = let rest = retain p xs in if p x then x ∷ rest else rest

  pub length-append : (xs ys : List A) → length (xs ++ ys) ≡ length xs + length ys
  length-append [] ys = omega arith
  length-append (x ∷ xs) ys = omega (arith, length-append xs ys)

module _ {ℓ κ} {A : Type ℓ} (P : A → Type κ) where
  abbrev pub All : List A → Type κ
  All [] = Unit
  All (x ∷ xs) = P x × All xs

module _ {ℓ κ} {A : Type ℓ} (P : A → Type κ) where
  pub All-append : (xs ys : List A) → All P xs → All P ys → All P (xs ++ ys)
  All-append [] ys h k = k
  All-append (x ∷ xs) ys (p, h) k = (p, All-append xs ys h k)

  pub All-retain : (p : A → Bool) (xs : List A) → All P xs → All P (retain p xs)
  All-retain p [] h = tt
  All-retain p (x ∷ xs) (q, h) = ground (arith, All-retain p xs h)

pub length-map {ℓ κ} :
    {A : Type ℓ} {B : Type κ} (f : A → B) (xs : List A) → length (map f xs) ≡ length xs
length-map f [] = refl
length-map f (x ∷ xs) = ap suc (length-map f xs)

pub All-map {ℓ κ μ} :
    {A : Type ℓ} (P : A → Type κ) (Q : A → Type μ) (xs : List A)
    → ((a : A) → P a → Q a)
    → All P xs
    → All Q xs
All-map P Q [] f h = tt
All-map P Q (x ∷ xs) f (p, h) = (f x p, All-map P Q xs f h)

-- `==` on `Option`, by the test of the values.
abbrev pub option_eq {ℓ} : {A : Type ℓ} → (A → A → Bool) → Option A → Option A → Bool
option_eq eq none none = true
option_eq eq none (some b) = false
option_eq eq (some a) none = false
option_eq eq (some a) (some b) = eq a b

pub option_eq_iff {ℓ} :
    {A : Type ℓ} (eq : A → A → Bool) (sound : (a b : A) → (eq a b ≡ true) ↔ (a ≡ b))
    (x y : Option A)
    → (option_eq eq x y ≡ true) ↔ (x ≡ y)
option_eq_iff eq sound none none = (λ _. refl, λ _. refl)
option_eq_iff eq sound none (some b) = (λ h. cc, λ h. cc)
option_eq_iff eq sound (some a) none = (λ h. cc, λ h. cc)
option_eq_iff eq sound (some a) (some b) =
    (λ h. ap some ((sound a b).0 h), λ e. (sound a b).1 (cc e))
