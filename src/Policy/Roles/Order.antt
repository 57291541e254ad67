-- ===== src/Policy/Roles/Order.antt =====
-- What the iteration order of the roles has to do with `get_role_for_groups` of src/policy.rs.
use mathlib.Core.List.{Perm, Permᴰ}
use mathlib.Core.List.Permᴰ
use bpf_rbacd.Base.{
  All, String, none, some, List, [], ◌∷◌, HashMap, In, ◌≡◌, refl, inl, inr, ◌∙◌, sym, string_eq,
}
use bpf_rbacd.Policy.Config.{Role, Policy}
use bpf_rbacd.Policy.Roles.{priority, first_named, first_matching, get_role_for_groups}
use bpf_rbacd.Policy.Roles.Choice.{Holds, matches_of_Shares, first_named_skip}

module _ {ℓ} {A : Type ℓ} where
  -- An element brought to the front.
  moved_front :
      (x : A) (xs : List A)
      → In x xs
      → (ys : List A) × Permᴰ xs (x ∷ ys) × ((y : A) → In y (x ∷ ys) → In y xs)
  moved_front x [] m = absurd m.1
  moved_front x (z ∷ xs) (inl e) = (xs, Permᴰ.cons (sym e) (Permᴰ.refl xs), back)
    where
      back : (y : A) → In y (x ∷ xs) → In y (z ∷ xs)
      back y (inl here) = inl (here ∙ e)
      back y (inr there) = inr there
  moved_front x (z ∷ xs) (inr m) =
      let (ys, permuted, back) = moved_front x xs m in
      (z ∷ ys, Permᴰ.trans (Permᴰ.cons refl permuted) (Permᴰ.swap refl refl), from ys back)
    where
      from :
          (ys : List A)
          → ((y : A) → In y (x ∷ ys) → In y xs)
          → (y : A) → In y (x ∷ z ∷ ys)
          → In y (z ∷ xs)
      from ys back y (inl here) = inr (back y (inl here))
      from ys back y (inr (inl here)) = inl here
      from ys back y (inr (inr there)) = inr (back y (inr there))

-- The policy with its roles in another order.
abbrev pub reordered : Policy → HashMap Role → Policy
reordered p roles = record p { config = record p.config { roles = roles } }

first_named-none :
    (p : Policy) (user_groups names : List String)
    → All (λ n. ¬ Holds p user_groups n) names
    → first_named p.config.roles user_groups names ≡ none
unfolding first_named
first_named-none p user_groups [] h = refl
first_named-none p user_groups (n ∷ names) h =
    first_named_skip p.config.roles user_groups n names h.0
    ∙ first_named-none p user_groups names h.1

All-weaken :
    (p q : Policy) (user_groups names : List String)
    → ((n : String) → Holds q user_groups n → Holds p user_groups n)
    → All (λ n. ¬ Holds p user_groups n) names
    → All (λ n. ¬ Holds q user_groups n) names
All-weaken p q user_groups [] f h = tt
All-weaken p q user_groups (n ∷ names) f h =
    (λ held. h.0 (f n held), All-weaken p q user_groups names f h.1)

-- For a user who holds none of the well-known roles, each role that the user holds is the one that
-- is picked in some iteration order of the roles.
pub get_role_for_groups_by_order :
    (p : Policy) (user_groups : List String) (name : String)
    → All (λ n. ¬ Holds p user_groups n) priority
    → Holds p user_groups name
    → (roles : HashMap Role) × Perm p.config.roles roles
      × (get_role_for_groups (reordered p roles) user_groups ≡ some name)
unfolding get_role_for_groups first_matching
get_role_for_groups_by_order p user_groups name none_known (role, m, s) =
    let (rest, permuted, back) = moved_front (name, role) p.config.roles m in
    let roles : HashMap Role = (name, role) ∷ rest in
    let unnamed : first_named roles user_groups priority ≡ none =
      first_named-none (reordered p roles) user_groups priority (
        All-weaken p (reordered p roles) user_groups priority
          (λ n (r, place, shared). (r, back (n, r) place, shared)) none_known) in
    (
      roles,
      ∣ permuted ∣₁,
      rw (unnamed, get_role_for_groups)
          (rw (matches_of_Shares user_groups role s, first_matching) refl),
    )
