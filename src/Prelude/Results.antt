-- ===== src/Prelude/Results.antt =====
-- Rust's `Result`, with the `?` operator as a bind.
use mathlib.Core.Path.{◌≡◌, refl, subst}
use mathlib.Core.Logic.{◌⊎◌, inl, inr}
use mathlib.Core.Bool.{Bool, true, false}

pub data Result {ℓ κ} (A : Type ℓ) (E : Type κ) : Type (ℓ ⊔ κ) where
  ok : A → Result A E
  err : E → Result A E

module _ {ℓ κ} {A : Type ℓ} {E : Type κ} where
  abbrev pub is_ok : Result A E → Bool
  is_ok (ok a) = true
  is_ok (err e) = false

infixl 10 ◌>>=◌
abbrev pub ◌>>=◌ {ℓ κ μ} :
    {A : Type ℓ} {B : Type κ} {E : Type μ} → Result A E → (A → Result B E) → Result B E
ok a >>= f = f a
err e >>= f = err e

pub Result-cases {ℓ κ} :
    {A : Type ℓ} {E : Type κ} (r : Result A E) → ((a : A) × (r ≡ ok a)) ⊎ ((e : E) × (r ≡ err e))
Result-cases (ok a) = inl (a, refl)
Result-cases (err e) = inr (e, refl)

-- What holds of the value where there is one.
abbrev pub OnOk {ℓ κ μ} : {A : Type ℓ} {E : Type κ} → (A → Type μ) → Result A E → Type μ
OnOk P (ok a) = P a
OnOk P (err e) = Unit

pub OnOk-bind {ℓ κ μ ν} :
    {A : Type ℓ} {B : Type κ} {E : Type μ} (P : B → Type ν) (r : Result A E) (f : A → Result B E)
    → ((a : A) → r ≡ ok a → OnOk P (f a))
    → OnOk P (r >>= f)
OnOk-bind P (ok a) f h = h a refl
OnOk-bind P (err e) f h = tt

pub OnOk-ok {ℓ κ μ} :
    {A : Type ℓ} {E : Type κ} (P : A → Type μ) (r : Result A E) (a : A) → OnOk P r → r ≡ ok a → P a
OnOk-ok P r a h e = subst (OnOk P) e h

pub OnOk-map {ℓ κ μ ν} :
    {A : Type ℓ} {E : Type κ} (P : A → Type μ) (Q : A → Type ν) (r : Result A E)
    → ((a : A) → P a → Q a)
    → OnOk P r
    → OnOk Q r
OnOk-map P Q (ok a) f h = f a h
OnOk-map P Q (err e) f h = tt
