-- ===== src/Policy/Roles/Picks.antt =====
-- All that `get_role_for_groups` of src/policy.rs can come to.
use bpf_rbacd.Base.{
  String, false, Option, none, some, List, [], ◌∷◌, ◌++◌, All, DistinctKeys, get, get-In, get_of_In,
  ◌≡◌, refl, ap, inl, inr, arith, Option-cases, Bool-cases,
}
use bpf_rbacd.Policy.Config.{Role, Policy}
use bpf_rbacd.Policy.Roles.{matches, priority, first_named, get_role_for_groups}
use bpf_rbacd.Policy.Roles.Choice.{
  Holds, matches-Shares, matches_of_Shares, get_role_for_groups-some, get_role_for_groups-ne-none,
}

module _ (p : Policy) (user_groups : List String) where
  -- The first of the names that the user holds, or none of them.
  data First (names : List String) (result : Option String) : Type 0 where
    held :
        (higher : List String) (name : String) (lower : List String)
        → names ≡ higher ++ name ∷ lower
        → All (λ n. ¬ Holds p user_groups n) higher
        → Holds p user_groups name
        → result ≡ some name
        → First names result
    unheld : All (λ n. ¬ Holds p user_groups n) names → result ≡ none → First names result

  missing_unheld :
      (name : String)
      → DistinctKeys p.config.roles
      → get name p.config.roles ≡ none
      → ¬ Holds p user_groups name
  missing_unheld name distinct missing (role, m, s) =
      cc (get_of_In name role p.config.roles distinct m, missing)

  unmet_unheld :
      (name : String) (role : Role)
      → DistinctKeys p.config.roles
      → get name p.config.roles ≡ some role
      → matches user_groups role ≡ false
      → ¬ Holds p user_groups name
  unmet_unheld name role distinct found unmet (role', m, s) =
      ground (
        arith,
        get_of_In name role' p.config.roles distinct m,
        matches_of_Shares user_groups role' s,
      )

  later :
      (n : String) (names : List String) (result : Option String)
      → ¬ Holds p user_groups n
      → First names result
      → First (n ∷ names) result
  later n names result h (held higher name lower split above holds e) =
      held (n ∷ higher) name lower (ap (λ (ns : List String). n ∷ ns) split) (h, above) holds e
  later n names result h (unheld all e) = unheld (h, all) e

  first_named-First :
      (names : List String)
      → DistinctKeys p.config.roles
      → First names (first_named p.config.roles user_groups names)
  unfolding first_named
  first_named-First [] distinct = unheld tt refl
  first_named-First (n ∷ names) distinct =
      let rest = first_named-First names distinct in
      elim (Option-cases (get n p.config.roles)) [
        | inl missing ↦
            rw (missing, first_named) (later n names _ (missing_unheld n distinct missing) rest)
        | inr (role, found) ↦ elim (Bool-cases (matches user_groups role)) [
          | inl met ↦
              held [] n names refl tt
                (role, get-In n role p.config.roles found, matches-Shares user_groups role met)
                (rw (found, first_named, met) refl)
          | inr unmet ↦
              rw (found, first_named, unmet)
                (later n names _ (unmet_unheld n role distinct found unmet) rest)
        ]
      ]

  -- The role of a user: the first of the well-known ones that the user holds; if the user holds none of
  -- them, some role that the user holds; and none if there is none.
  pub data Picks (result : Option String) : Type 0 where
    well_known :
        (higher : List String) (name : String) (lower : List String)
        → priority ≡ higher ++ name ∷ lower
        → All (λ n. ¬ Holds p user_groups n) higher
        → Holds p user_groups name
        → result ≡ some name
        → Picks result
    another :
        (name : String)
        → All (λ n. ¬ Holds p user_groups n) priority
        → Holds p user_groups name
        → result ≡ some name
        → Picks result
    nobody : ((name : String) → ¬ Holds p user_groups name) → result ≡ none → Picks result

  from_First :
      First priority (first_named p.config.roles user_groups priority)
      → Picks (get_role_for_groups p user_groups)
  unfolding get_role_for_groups
  from_First (held higher name lower split above holds e) =
      well_known higher name lower split above holds (rw (e, get_role_for_groups) refl)
  from_First (unheld all e) = elim (Option-cases (get_role_for_groups p user_groups)) [
    | inl unpicked ↦
        nobody (λ name holds. get_role_for_groups-ne-none p user_groups name holds unpicked)
          unpicked
    | inr (name, picked) ↦
        another name all (get_role_for_groups-some p user_groups name picked) picked
  ]

  -- get_role_for_groups picks the first of the well-known roles, in priority order, that the user holds,
  -- which is one that shares a group with the user; if the user holds none of them, a role that the user
  -- holds; and none exactly if the user holds none. No two roles have the same name.
  pub get_role_for_groups-Picks :
      DistinctKeys p.config.roles → Picks (get_role_for_groups p user_groups)
  get_role_for_groups-Picks distinct = from_First (first_named-First priority distinct)
