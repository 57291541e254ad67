-- ===== src/Base/Lists.antt =====
-- Lists as the source uses `Vec` and slices: `iter().any`, `contains`, lengths and prefixes.
use Prim.Native.Nat.{ℕ, zero, suc}
use mathlib.Core.Path.{◌≡◌, refl, ◌∙◌}
use mathlib.Core.Bool.{Bool, true, false, ◌||◌, Bool-set}
use mathlib.Core.Logic.{◌⊎◌, inl, inr, ∥∥₁_elim}
use mathlib.Core.List.{List, [], ◌∷◌, ◌++◌, Perm, Permᴰ}
use native.Mathlib.Omega.{arith}
use bpf_rbacd.Base.Equality.{Bool-cases}

module _ {ℓ} {A : Type ℓ} where
  -- `iter().any(p)`
  abbrev pub any : (A → Bool) → List A → Bool
  any p [] = false
  any p (x ∷ xs) = p x || any p xs

  abbrev pub length : List A → ℕ
  length [] = 0
  length (x ∷ xs) = suc (length xs)

  abbrev pub take : ℕ → List A → List A
  take zero xs = []
  take (suc n) [] = []
  take (suc n) (x ∷ xs) = x ∷ take n xs

  pub any-append : (p : A → Bool) (xs ys : List A) → any p (xs ++ ys) ≡ (any p xs || any p ys)
  any-append p [] ys = refl
  any-append p (x ∷ xs) ys = ground (arith, any-append p xs ys)

  -- Every element satisfies `P`.
  abbrev pub All {κ} : (A → Type κ) → List A → Type κ
  All P [] = Unit
  All P (x ∷ xs) = P x × All P xs

  -- `x` stands in the list, with its position. The empty case is a pair to fit the level.
  abbrev pub In : A → List A → Type ℓ
  In x [] = A × ⊥
  In x (y ∷ ys) = (x ≡ y) ⊎ In x ys

  -- A test that some element passes.
  pub any-In : (p : A → Bool) (xs : List A) → any p xs ≡ true → (x : A) × In x xs × (p x ≡ true)
  any-In p [] h = cc
  any-In p (x ∷ xs) h = elim (Bool-cases (p x)) [
    | inl here ↦ (x, inl refl, here)
    | inr not_here ↦
        let rest : any p xs ≡ true = rw not_here at h in
        let (y, place, passes) = any-In p xs rest in (y, inr place, passes)
  ]

  pub any_of_In : (p : A → Bool) (x : A) (xs : List A) → In x xs → p x ≡ true → any p xs ≡ true
  any_of_In p x [] m h = absurd m.1
  any_of_In p x (y ∷ ys) (inl e) h = ground arith
  any_of_In p x (y ∷ ys) (inr m) h = ground (arith, any_of_In p x ys m h)

  any-permuted : (p : A → Bool) {xs ys : List A} → Permᴰ xs ys → any p xs ≡ any p ys
  any-permuted p Permᴰ.nil = refl
  any-permuted p (Permᴰ.cons e d) = ground (arith, any-permuted p d)
  any-permuted p (Permᴰ.swap e e') = ground arith
  any-permuted p (Permᴰ.trans d d') = any-permuted p d ∙ any-permuted p d'

  -- The order of a list plays no part in `any`.
  pub any-Perm : (p : A → Bool) {xs ys : List A} → Perm xs ys → any p xs ≡ any p ys
  any-Perm p {xs} {ys} h = ∥∥₁_elim h (Bool-set (any p xs) (any p ys)) (any-permuted p)
