-- ===== src/Base/Results.antt =====
-- `Result<T, E>` and the `?` operator.
use mathlib.Core.Path.{◌≡◌, refl}
use mathlib.Core.Logic.{◌⊎◌, inl, inr}
use mathlib.Core.Option.{Option, none, some}

pub data Result {ℓ κ} (A : Type ℓ) (E : Type κ) : Type (ℓ ⊔ κ) where
  ok : A → Result A E
  err : E → Result A E

module _ {ℓ κ μ} {A : Type ℓ} {B : Type κ} {E : Type μ} where
  infixl 5 ◌>>=◌
  abbrev pub ◌>>=◌ : Result A E → (A → Result B E) → Result B E
  ok a >>= f = f a
  err e >>= f = err e

  -- A step of a chain that ends well has ended well itself.
  pub ok_of_bind :
      (m : Result A E) (next : A → Result B E) (b : B)
      → (m >>= next) ≡ ok b
      → (a : A) × (m ≡ ok a) × (next a ≡ ok b)
  ok_of_bind (ok a) next b done = (a, refl, done)
  ok_of_bind (err e) next b done = cc

module _ {ℓ κ} {A : Type ℓ} {E : Type κ} where
  -- `option.ok_or_else(|| e)`
  abbrev pub ok_or : Option A → E → Result A E
  ok_or none e = err e
  ok_or (some a) e = ok a

  pub ok_injective : (a b : A) → Path (Result A E) (ok a) (ok b) → a ≡ b
  ok_injective a b same = cc

  -- To split on a computed result and keep the equation.
  pub Result-cases : (r : Result A E) → ((a : A) × (r ≡ ok a)) ⊎ ((e : E) × (r ≡ err e))
  Result-cases (ok a) = inl (a, refl)
  Result-cases (err e) = inr (e, refl)

-- `option.unwrap_or(a)`
abbrev pub unwrap_or {ℓ} : {A : Type ℓ} → Option A → A → A
unwrap_or none a = a
unwrap_or (some a) _ = a
