-- ===== src/Base/Maps.antt =====
-- `HashMap<String, V>`: the entries in the order in which the map iterates. The standard library
-- fixes no order, so a statement about every list is one about every order.
use Prim.Native.String.{String}
use mathlib.Core.Path.{◌≡◌, refl, sym, ◌∙◌}
use mathlib.Core.Logic.{inl, inr, ◌↔◌}
use mathlib.Core.Bool.{Bool, true, false}
use mathlib.Core.Option.{Option, none, some}
use mathlib.Core.List.{List, [], ◌∷◌, Perm}
use native.Mathlib.Omega.{arith}
use bpf_rbacd.Base.Equality.{◌==◌, string_eq, if◌then◌else◌}
use bpf_rbacd.Base.Lists.{any, any-Perm, In}

abbrev pub HashMap {ℓ} : Type ℓ → Type ℓ
HashMap V = List (String × V)

module _ {ℓ} {V : Type ℓ} where
  -- `m.get(k)`
  unfoldable pub get : String → HashMap V → Option V
  get k [] = none
  get k ((j, v) ∷ m) = if k == j then some v else get k m

  -- `m.contains_key(k)`
  unfoldable pub contains_key : String → HashMap V → Bool
  contains_key k [] = false
  contains_key k ((j, v) ∷ m) = if k == j then true else contains_key k m

  -- `m.keys()`
  unfoldable pub keys : HashMap V → List String
  keys [] = []
  keys ((j, v) ∷ m) = j ∷ keys m

  -- `m.insert(k, v)`
  unfoldable pub insert : String → V → HashMap V → HashMap V
  insert k v [] = (k, v) ∷ []
  insert k v ((j, w) ∷ m) = if k == j then (k, v) ∷ m else (j, w) ∷ insert k v m

  -- What the type guarantees: no key is listed twice.
  abbrev pub DistinctKeys : HashMap V → Type ℓ
  DistinctKeys [] = Unit
  DistinctKeys ((k, _) ∷ m) = (get k m ≡ none) × DistinctKeys m

  pub get-insert :
      (j k : String) (v : V) (m : HashMap V)
      → get j (insert k v m) ≡ (if j == k then some v else get j m)
  unfolding get insert
  get-insert j k v [] = refl
  get-insert j k v (_ ∷ m) = ground (arith, get-insert j k v m)

  pub insert-DistinctKeys :
      (k : String) (v : V) (m : HashMap V) → DistinctKeys m → DistinctKeys (insert k v m)
  unfolding insert get
  insert-DistinctKeys k v [] h = (refl, tt)
  insert-DistinctKeys k v ((j, _) ∷ m) h =
      ground (arith, insert-DistinctKeys k v m h.1, get-insert j k v m)

  -- A value found stands in the map.
  pub get-In : (k : String) (v : V) (m : HashMap V) → get k m ≡ some v → In (k, v) m
  unfolding get
  get-In k v [] h = cc
  get-In k v ((j, w) ∷ m) h = ground (arith, get-In k v m)

  pub get_of_In :
      (k : String) (v : V) (m : HashMap V) → DistinctKeys m → In (k, v) m → get k m ≡ some v
  unfolding get
  get_of_In k v [] d h = absurd h.1
  get_of_In k v ((j, w) ∷ m) d (inl e) = ground arith
  get_of_In k v ((j, w) ∷ m) d (inr h) = ground (arith, get_of_In k v m d.1 h)

  pub contains_key-any :
      (k : String) (m : HashMap V) → contains_key k m ≡ any (λ j. k == j) (keys m)
  unfolding contains_key keys
  contains_key-any k [] = refl
  contains_key-any k (_ ∷ m) = ground (arith, contains_key-any k m)

  pub contains_key-get :
      (k : String) (m : HashMap V) → (contains_key k m ≡ false) ↔ (get k m ≡ none)
  unfolding contains_key get
  contains_key-get k [] = (λ _. refl, λ _. refl)
  contains_key-get k (_ ∷ m) = ground (arith, contains_key-get k m)

  any-keys :
      (p : String → Bool) (m : HashMap V) → any p (keys m) ≡ any (λ ((k, _) : String × V). p k) m
  unfolding keys
  any-keys p [] = refl
  any-keys p ((k, v) ∷ m) = ground (arith, any-keys p m)

  -- The iteration order plays no part in a search among the keys.
  pub any-keys_order :
      (p : String → Bool) {m m' : HashMap V} → Perm m m' → any p (keys m) ≡ any p (keys m')
  any-keys_order p {m} {m'} h = any-keys p m ∙ any-Perm _ h ∙ sym (any-keys p m')

  pub contains_key_order :
      (k : String) {m m' : HashMap V} → Perm m m' → contains_key k m ≡ contains_key k m'
  contains_key_order k {m} {m'} h =
      contains_key-any k m ∙ any-keys_order _ h ∙ sym (contains_key-any k m')
