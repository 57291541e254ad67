-- ===== src/Policy/Roles/Choice.antt =====
-- The role that `get_role_for_groups` of src/policy.rs picks.
use bpf_rbacd.Base.{
  All, ◌⊎◌, ◌++◌, String, true, false, none, some, List, [], ◌∷◌, HashMap, DistinctKeys, get,
  get-In, get_of_In, In, any-In, any_of_In, ◌≡◌, ◌≢◌, ◌∙◌, inl, inr, arith, ◌==◌, string_eq,
  Option-cases, Bool-cases,
}
use bpf_rbacd.Policy.Config.{Role, Policy}
use bpf_rbacd.Policy.Roles.{
  has_group, matches, priority, first_named, first_matching, get_role_for_groups,
}

-- The user has one of the role's groups.
abbrev pub Shares : List String → Role → Type 0
Shares user_groups role = (group : String) × In group role.groups × In group user_groups

-- The policy has a role of that name, one of whose groups the user has.
abbrev pub Holds : Policy → List String → String → Type 0
Holds p user_groups name = (role : Role) × In (name, role) p.config.roles × Shares user_groups role

has_group-In :
    (user_groups : List String) (group : String)
    → has_group user_groups group ≡ true
    → In group user_groups
has_group-In [] group h = cc
has_group-In (g ∷ user_groups) group h = ground (arith, has_group-In user_groups group)

pub matches-Shares :
    (user_groups : List String) (role : Role)
    → matches user_groups role ≡ true
    → Shares user_groups role
unfolding matches
matches-Shares user_groups role h =
    let (group, m, e) = any-In (has_group user_groups) role.groups h in
    (group, m, has_group-In user_groups group e)

pub matches_of_Shares :
    (user_groups : List String) (role : Role)
    → Shares user_groups role
    → matches user_groups role ≡ true
unfolding matches
matches_of_Shares user_groups role (group, m, u) =
    any_of_In (has_group user_groups) group role.groups m
      (any_of_In (λ g. group == g) group user_groups u (ground arith))

module _ (user_groups : List String) where
  first_matching-some :
      (roles : HashMap Role) (name : String)
      → first_matching user_groups roles ≡ some name
      → (role : Role) × In (name, role) roles × (matches user_groups role ≡ true)
  unfolding first_matching
  first_matching-some [] name h = cc
  first_matching-some ((j, r) ∷ roles) name h = elim (Bool-cases (matches user_groups r)) [
    | inl met ↦ (r, inl (ground arith), met)
    | inr unmet ↦
        let (role, m, e) = first_matching-some roles name (rw (unmet, first_matching) at h) in
        (role, inr m, e)
  ]

  first_matching-none :
      (roles : HashMap Role) (name : String) (role : Role)
      → first_matching user_groups roles ≡ none
      → In (name, role) roles
      → matches user_groups role ≡ false
  unfolding first_matching
  first_matching-none [] name role h m = absurd m.1
  first_matching-none ((j, r) ∷ roles) name role h (inl e) = ground arith
  first_matching-none ((j, r) ∷ roles) name role h (inr m) =
      ground (arith, first_matching-none roles name role)

module _ (roles : HashMap Role) (user_groups : List String) where
  first_named-some :
      (names : List String) (name : String)
      → first_named roles user_groups names ≡ some name
      → (role : Role) × In (name, role) roles × (matches user_groups role ≡ true)
  unfolding first_named
  first_named-some [] name h = cc
  first_named-some (n ∷ names) name h = elim (Option-cases (get n roles)) [
    | inl missing ↦ first_named-some names name (rw (missing, first_named) at h)
    | inr (role, found) ↦ elim (Bool-cases (matches user_groups role)) [
      | inl met ↦
          let same : n ≡ name = ground arith in
          (role, get-In name role roles (rw same at found), met)
      | inr unmet ↦ first_named-some names name (rw (found, first_named, unmet) at h)
    ]
  ]

  pub first_named_skip :
      (n : String) (names : List String)
      → ¬ ((role : Role) × In (n, role) roles × Shares user_groups role)
      → first_named roles user_groups (n ∷ names) ≡ first_named roles user_groups names
  unfolding first_named
  first_named_skip n names h = elim (Option-cases (get n roles)) [
    | inl missing ↦ rw (missing, first_named)
    | inr (role, found) ↦ elim (Bool-cases (matches user_groups role)) [
      | inl met ↦ absurd (h (role, get-In n role roles found, matches-Shares user_groups role met))
      | inr unmet ↦ rw (found, first_named, unmet)
    ]
  ]

  first_named_take :
      (n : String) (names : List String) (role : Role)
      → DistinctKeys roles
      → In (n, role) roles
      → Shares user_groups role
      → first_named roles user_groups (n ∷ names) ≡ some n
  unfolding first_named
  first_named_take n names role distinct m s =
      ground (arith, get_of_In n role roles distinct m, matches_of_Shares user_groups role s)

module _ (p : Policy) (user_groups : List String) where
  first_named_priority :
      (higher : List String) (name : String) (lower : List String)
      → DistinctKeys p.config.roles
      → All (λ n. ¬ Holds p user_groups n) higher
      → Holds p user_groups name
      → first_named p.config.roles user_groups (higher ++ name ∷ lower) ≡ some name
  first_named_priority [] name lower distinct none_above (role, m, s) =
      first_named_take p.config.roles user_groups name lower role distinct m s
  first_named_priority (n ∷ higher) name lower distinct none_above holds =
      first_named_skip p.config.roles user_groups n (higher ++ name ∷ lower) none_above.0
      ∙ first_named_priority higher name lower distinct none_above.1 holds

  -- Of the well-known roles, the first in priority order that the user holds is picked.
  pub get_role_for_groups-priority :
      (higher : List String) (name : String) (lower : List String)
      → priority ≡ higher ++ name ∷ lower
      → DistinctKeys p.config.roles
      → All (λ n. ¬ Holds p user_groups n) higher
      → Holds p user_groups name
      → get_role_for_groups p user_groups ≡ some name
  unfolding get_role_for_groups
  get_role_for_groups-priority higher name lower split distinct none_above holds =
      let first : first_named p.config.roles user_groups priority ≡ some name =
        rw split (first_named_priority higher name lower distinct none_above holds) in
      rw (first, get_role_for_groups)

  -- A role that is picked is one of the policy's, and the user has one of its groups.
  pub get_role_for_groups-some :
      (name : String) → get_role_for_groups p user_groups ≡ some name → Holds p user_groups name
  unfolding get_role_for_groups
  get_role_for_groups-some name h =
      elim (Option-cases (first_named p.config.roles user_groups priority)) [
        | inl unnamed ↦
            let (role, m, met) =
              first_matching-some user_groups p.config.roles name
                (rw (unnamed, get_role_for_groups) at h) in
            (role, m, matches-Shares user_groups role met)
        | inr (n, named) ↦
            let same : n ≡ name = ground arith in
            let (role, m, met) =
              first_named-some p.config.roles user_groups priority name (rw same at named) in
            (role, m, matches-Shares user_groups role met)
      ]

  pub get_role_for_groups-ne-none :
      (name : String) → Holds p user_groups name → get_role_for_groups p user_groups ≢ none
  unfolding get_role_for_groups
  get_role_for_groups-ne-none name (role, m, s) h =
      elim (Option-cases (first_named p.config.roles user_groups priority)) [
        | inl unnamed ↦ cc (
          matches_of_Shares user_groups role s,
          first_matching-none user_groups p.config.roles name role
              (rw (unnamed, get_role_for_groups) at h) m,
        )
        | inr (n, named) ↦ cc (rw (named, get_role_for_groups) at h)
      ]

  -- Either the role that is picked is one that the user holds, or none is picked and the user holds
  -- none.
  pub get_role_for_groups_lem :
      ((name : String) × (get_role_for_groups p user_groups ≡ some name) × Holds p user_groups name)
      ⊎ ((get_role_for_groups p user_groups ≡ none)
          × ((name : String) → ¬ Holds p user_groups name))
  get_role_for_groups_lem = elim (Option-cases (get_role_for_groups p user_groups)) [
    | inl unpicked ↦ inr (unpicked, λ name held. get_role_for_groups-ne-none name held unpicked)
    | inr (name, picked) ↦ inl (name, picked, get_role_for_groups-some name picked)
  ]
