-- ===== src/Base/Effects.antt =====
-- Calls that may fail and that change a state: `?` returns with the state of the failed call.
use mathlib.Core.Bool.{Bool, true, false}
use mathlib.Core.Path.{◌≡◌, refl}
use mathlib.Core.Logic.{◌⊎◌, inl, inr}
use Prim.Native.String.{String}
use bpf_rbacd.Base.Results.{Result, ok, err}

abbrev pub Effect {ℓ κ} : Type ℓ → Type κ → Type (ℓ ⊔ κ)
Effect S A = S → Result A String × S

module _ {ℓ κ μ} {S : Type ℓ} {A : Type κ} {B : Type μ} where
  abbrev pub go_on : (A → Effect S B) → Result A String × S → Result B String × S
  go_on next (ok a, s) = next a s
  go_on next (err e, s) = (err e, s)

  infixl 5 ◌>>=◌
  abbrev pub ◌>>=◌ : Effect S A → (A → Effect S B) → Effect S B
  (m >>= next) s = go_on next (m s)

  -- A chain whose second half ends well: so did the first.
  pub ok_of_chain :
      (m : Effect S A) (next : A → Effect S B) (b : B) (s s' : S)
      → (m >>= next) s ≡ (ok b, s')
      → (a : A) × (t : S) × (m s ≡ (ok a, t)) × (next a t ≡ (ok b, s'))
  ok_of_chain m next b s s' done = after (m s) done
    where
      after :
          (r : Result A String × S)
          → go_on next r ≡ (ok b, s')
          → (a : A) × (t : S) × (r ≡ (ok a, t)) × (next a t ≡ (ok b, s'))
      after (ok a, t) h = (a, t, refl, h)
      after (err e, t) h = cc

-- To split on the outcome of a call and keep the equation.
pub outcome-cases {ℓ κ} :
    {A : Type ℓ} {S : Type κ} (r : Result A String × S)
    → ((a : A) × (t : S) × (r ≡ (ok a, t))) ⊎ ((e : String) × (t : S) × (r ≡ (err e, t)))
outcome-cases (ok a, t) = inl (a, t, refl)
outcome-cases (err e, t) = inr (e, t, refl)

module _ {ℓ κ} {S : Type ℓ} {A : Type κ} where
  -- `with_context`: the message that is shown is the context.
  abbrev pub relabel : String → Result A String × S → Result A String × S
  relabel message (ok a, s) = (ok a, s)
  relabel message (err e, s) = (err message, s)

  abbrev pub with_context : String → Effect S A → Effect S A
  with_context message m s = relabel message (m s)

  -- A call whose outcome is dropped, as by `let _ = …`.
  abbrev pub ignore : Effect S A → Effect S (Unit {0})
  ignore m s = (ok tt, (m s).1)

  abbrev pub pure : A → Effect S A
  pure a s = (ok a, s)

-- A test, or the error: `if !test { bail!(message) }`.
abbrev pub ensure {ℓ} : {S : Type ℓ} → Bool → String → Effect S (Unit {0})
ensure true message s = (ok tt, s)
ensure false message s = (err message, s)

pub relabel-ok {ℓ κ} :
    {S : Type ℓ} {A : Type κ} (message : String) (r : Result A String × S) (a : A) (s : S)
    → relabel message r ≡ (ok a, s)
    → r ≡ (ok a, s)
relabel-ok message (ok b, t) a s h = h
relabel-ok message (err e, t) a s h = cc

pub relabel_state {ℓ κ} :
    {S : Type ℓ} {A : Type κ} (message : String) (r : Result A String × S)
    → (relabel message r).1 ≡ r.1
relabel_state message (ok a, t) = refl
relabel_state message (err e, t) = refl
