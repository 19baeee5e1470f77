-- ===== src/Prelude/Tests.antt =====
-- Boolean tests on native numbers, and how to branch on one.
use Prim.Native.Nat.{ℕ, ◌≤◌, ◌<◌, compare, Ordering}
use mathlib.Core.Path.{◌≡◌, refl}
use mathlib.Core.Logic.{◌⊎◌, ◌↔◌, inl, inr}
use mathlib.Core.Bool.{Bool, true, false, ◌&&◌, ◌||◌}
use mathlib.Core.Option.{Option, none, some}
use native.Mathlib.Omega.{arith}

abbrev pub ltb : ℕ → ℕ → Bool
ltb a b = elim (compare a b) [ Ordering.lt ↦ true | _ ↦ false ]

abbrev pub leb : ℕ → ℕ → Bool
leb a b = elim (compare a b) [ Ordering.gt ↦ false | _ ↦ true ]

infix 50 ◌==◌
abbrev pub ◌==◌ : ℕ → ℕ → Bool
a == b = elim (compare a b) [ Ordering.eq ↦ true | _ ↦ false ]

infix 1 if◌then◌else◌
abbrev pub if◌then◌else◌ {ℓ} : {A : Type ℓ} → Bool → A → A → A
if true then x else y = x
if false then x else y = y

pub ltb_iff : (a b : ℕ) → (ltb a b ≡ true) ↔ (a < b)
ltb_iff a b = (λ h. ground arith, λ h. ground arith)

pub leb_iff : (a b : ℕ) → (leb a b ≡ true) ↔ (a ≤ b)
leb_iff a b = (λ h. ground arith, λ h. ground arith)

pub ==_iff : (a b : ℕ) → (a == b ≡ true) ↔ (a ≡ b)
==_iff a b = (λ h. ground arith, λ h. ground arith)

pub Bool-cases : (b : Bool) → (b ≡ true) ⊎ (b ≡ false)
Bool-cases true = inl refl
Bool-cases false = inr refl

pub &&-eq-true : (a b : Bool) → (a && b) ≡ true → (a ≡ true) × (b ≡ true)
&&-eq-true a b h = ground arith

pub ||-eq-true : (a b : Bool) → (a || b) ≡ true → (a ≡ true) ⊎ (b ≡ true)
||-eq-true a b h = ground arith

pub Option-cases {ℓ} : {A : Type ℓ} (o : Option A) → (o ≡ none) ⊎ ((a : A) × (o ≡ some a))
Option-cases none = inl refl
Option-cases (some a) = inr (a, refl)

pub false_of_not : (b : Bool) → ¬ (b ≡ true) → b ≡ false
false_of_not true n = absurd (n refl)
false_of_not false n = refl

pub some_inj {ℓ} : {A : Type ℓ} {x y : A} → some x ≡ some y → x ≡ y
some_inj e = cc
