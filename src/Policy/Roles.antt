-- ===== src/Policy/Roles.antt =====
-- `get_role_for_groups` of src/policy.rs.
pub mod Choice
pub mod Order
pub mod Picks
use bpf_rbacd.Base.{
  String, Bool, true, false, Option, none, some, List, [], ◌∷◌, HashMap, get, any, ◌==◌, string_eq,
  if◌then◌else◌,
}
use bpf_rbacd.Policy.Config.{Role, Policy}

-- `user_groups_set.contains(group)`
abbrev pub has_group : List String → String → Bool
has_group user_groups group = any (λ g. group == g) user_groups

-- The loop over a role's groups, which returns at the first that the user has.
unfoldable pub matches : List String → Role → Bool
matches user_groups role = any (has_group user_groups) role.groups

abbrev pub priority : List String
priority = "ebpf-admin" ∷ "ebpf-net" ∷ "ebpf" ∷ []

module _ (roles : HashMap Role) (user_groups : List String) where
  -- The loop over the well-known names.
  unfoldable pub first_named : List String → Option String
  unfolding matches get
  first_named [] = none
  first_named (role_name ∷ names) =
      let rest = first_named names in
      elim (get role_name roles) [
        | some role ↦ if matches user_groups role then some role_name else rest
        | none ↦ rest
      ]

-- The loop over the map, in its iteration order.
unfoldable pub first_matching : List String → HashMap Role → Option String
unfolding matches
first_matching user_groups [] = none
first_matching user_groups ((role_name, role) ∷ roles) =
    if matches user_groups role then some role_name else first_matching user_groups roles

unfoldable pub get_role_for_groups : Policy → List String → Option String
unfolding first_named first_matching
get_role_for_groups p user_groups = elim (first_named p.config.roles user_groups priority) [
  | some role_name ↦ some role_name
  | none ↦ first_matching user_groups p.config.roles
]
