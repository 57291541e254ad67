-- ===== src/Tests/Policies.antt =====
-- Checks and role resolution of src/policy.rs.
use mathlib.Core.List.{Perm}
use bpf_rbacd.Base.{
  ◌≢◌, subst, arith, String, true, false, ◌&&◌, none, some, List, [], ◌∷◌, get, All, HashMap, ◌≡◌,
  ◌↔◌, inl, inr, refl, string_eq, In, DistinctKeys, get_of_In,
}
use bpf_rbacd.Protocol.{Request, create_map, attach}
use bpf_rbacd.Policy.{Role, Policy}
use bpf_rbacd.Policy.Check.{is_command_allowed, is_prog_op_allowed, is_map_op_allowed, is_allowed}
use bpf_rbacd.Policy.Check.Grants.{RequestGranted, IsWellFormed}
use bpf_rbacd.Policy.Check.Decides.{is_allowed_iff}
use bpf_rbacd.Policy.Check.Ceiling.{uncapped, ceiling_allows, is_allowed-intersection}
use bpf_rbacd.Policy.Roles.{priority, get_role_for_groups}
use bpf_rbacd.Policy.Roles.Choice.{Holds}
use bpf_rbacd.Policy.Roles.Picks.{Picks, get_role_for_groups-Picks}
use bpf_rbacd.Policy.Check.Extension.{Extends, with_role, is_allowed-Extends}
use bpf_rbacd.Policy.Roles.Order.{reordered, get_role_for_groups_by_order}
use bpf_rbacd.Policy.Defaults.{default, ebpf_role, ebpf_net_role, ebpf_admin_role}
use bpf_rbacd.Policy.Defaults.Access.{default_access}
use bpf_rbacd.Base.Int.{pos}
use bpf_rbacd.Tests.Sample.{sample, test_role}

-- The assertions of `test_system_policy_intersection`.
system_policy_intersection :
    (is_command_allowed sample test_role "LINK_CREATE" ≡ false)
    × (is_command_allowed sample test_role "PROG_LOAD" ≡ true)
    × (is_prog_op_allowed sample test_role "xdp" "load" ≡ false)
    × (is_prog_op_allowed sample test_role "kprobe" "load" ≡ true)
    × (is_prog_op_allowed sample test_role "kprobe" "detach" ≡ false)
    × (is_map_op_allowed sample test_role "hash" "write" ≡ false)
    × (is_map_op_allowed sample test_role "hash" "read" ≡ true)
    × (is_map_op_allowed sample test_role "array" "create" ≡ false)
unfolding is_command_allowed is_prog_op_allowed is_map_op_allowed get string_eq
system_policy_intersection = (refl, refl, refl, refl, refl, refl, refl, refl)

-- The assertions of the three tests on the default policy.
default_policy_checks :
    (is_prog_op_allowed default ebpf_role "kprobe" "load" ≡ true)
    × (is_prog_op_allowed default ebpf_role "tracepoint" "attach" ≡ true)
    × (is_prog_op_allowed default ebpf_role "xdp" "load" ≡ false)
    × (is_prog_op_allowed default ebpf_net_role "xdp" "detach" ≡ true)
    × (is_prog_op_allowed default ebpf_net_role "kprobe" "load" ≡ false)
    × (is_map_op_allowed default ebpf_admin_role "hash" "create" ≡ true)
    × (is_command_allowed default ebpf_admin_role "MAP_CREATE" ≡ true)
unfolding is_command_allowed is_prog_op_allowed is_map_op_allowed get string_eq default
default_policy_checks = (refl, refl, refl, refl, refl, refl, refl)

default_roles :
    (get_role_for_groups default ("alice" ∷ "ebpf" ∷ []) ≡ some "ebpf")
    × (get_role_for_groups default ("ebpf" ∷ "ebpf-admin" ∷ []) ≡ some "ebpf-admin")
    × (get_role_for_groups default ("nobody" ∷ []) ≡ none)
unfolding get_role_for_groups get string_eq default
default_roles = (refl, refl, refl)

abbrev hash_request : Request
hash_request = create_map "hash" "m" 4 8 16

pub sample-IsWellFormed : IsWellFormed sample
unfolding get string_eq
sample-IsWellFormed = record {
  names_distinct = (refl, tt);
  roles_distinct = (((refl, (refl, tt)), (refl, (refl, tt))), tt);
  ceiling_distinct = ((refl, tt), (refl, tt));
}

is_allowed_iff_example : (is_allowed sample "test" hash_request ≡ true) ↔ (
    (role : Role) × In ("test", role) sample.config.roles × RequestGranted sample role hash_request)
is_allowed_iff_example = is_allowed_iff sample "test" hash_request sample-IsWellFormed

is_allowed-intersection_example :
    is_allowed sample "test" hash_request
    ≡ (is_allowed (uncapped sample) "test" hash_request && ceiling_allows sample hash_request)
is_allowed-intersection_example = is_allowed-intersection sample "test" hash_request

abbrev two_groups : List String
two_groups = "ebpf" ∷ "ebpf-net" ∷ []

abbrev two_roles : Policy
two_roles = record {
  config = record {
    system_policy = none;
    roles =
        ("ebpf", record test_role { groups = "ebpf" ∷ [] })
        ∷ ("ebpf-net", record test_role { groups = "ebpf-net" ∷ [] })
        ∷ [];
  };
}

two_roles_distinct : DistinctKeys two_roles.config.roles
unfolding get string_eq
two_roles_distinct = (refl, (refl, tt))

get_role_for_groups-Picks_example :
    Picks two_roles two_groups (get_role_for_groups two_roles two_groups)
get_role_for_groups-Picks_example =
    get_role_for_groups-Picks two_roles two_groups two_roles_distinct

two_roles_order : get_role_for_groups two_roles two_groups ≡ some "ebpf-net"
unfolding get_role_for_groups get string_eq
two_roles_order = refl

-- The tests' role with one command and one map type more.
abbrev wider_role : Role
wider_role = record test_role {
  commands = "LINK_CREATE" ∷ test_role.commands;
  map_types = ("lru_hash", "create" ∷ []) ∷ test_role.map_types;
}

lru_hash_unlisted :
    (name : String) (ops : List String)
    → get name test_role.map_types ≡ some ops
    → name ≢ "lru_hash"
unfolding get string_eq
lru_hash_unlisted name ops found same =
    let there : get "lru_hash" test_role.map_types ≡ some ops =
      subst (λ (n : String). get n test_role.map_types ≡ some ops) same found in
    cc there

wider-Extends : Extends test_role wider_role
unfolding get string_eq
wider-Extends = record {
  commands = (λ name m. inr m);
  prog_types = record { wildcard = (λ h. h); entries = (λ name ops h. (ops, h, λ _ m. m)) };
  map_types = record {
    wildcard = (λ _. refl);
    entries = (λ name ops h. (ops, ground (arith, h, lru_hash_unlisted name ops), λ _ m. m));
  };
}

is_allowed-Extends_example :
    is_allowed (with_role sample "test" wider_role) "test" hash_request ≡ true
unfolding is_allowed get string_eq
is_allowed-Extends_example =
    is_allowed-Extends sample "test" test_role wider_role hash_request refl wider-Extends refl

-- Two roles of other names, which share a group.
abbrev two_teams : Policy
two_teams = record {
  config = record {
    system_policy = none;
    roles =
        ("auditors", record test_role { groups = "staff" ∷ [] })
        ∷ ("tracers", record test_role { groups = "staff" ∷ [] })
        ∷ [];
  };
}

teams_distinct : DistinctKeys two_teams.config.roles
unfolding get string_eq
teams_distinct = (refl, (refl, tt))

not_listed :
    (name : String) → get name two_teams.config.roles ≡ none → ¬ Holds two_teams ("staff" ∷ []) name
not_listed name missing (role, m, s) =
    cc (get_of_In name role two_teams.config.roles teams_distinct m, missing)

no_known_role : All (λ n. ¬ Holds two_teams ("staff" ∷ []) n) priority
unfolding get string_eq
no_known_role =
    (not_listed "ebpf-admin" refl, (not_listed "ebpf-net" refl, (not_listed "ebpf" refl, tt)))

first_team : get_role_for_groups two_teams ("staff" ∷ []) ≡ some "auditors"
unfolding get_role_for_groups get string_eq
first_team = refl

get_role_for_groups_by_order_example :
    (roles : HashMap Role) × Perm two_teams.config.roles roles
    × (get_role_for_groups (reordered two_teams roles) ("staff" ∷ []) ≡ some "tracers")
get_role_for_groups_by_order_example =
    get_role_for_groups_by_order two_teams ("staff" ∷ []) "tracers" no_known_role
      (_, inr (inl refl), ("staff", inl refl, inl refl))

default_answers :
    (get_role_for_groups default two_groups ≡ some "ebpf-net")
    × (is_allowed default "ebpf-admin" hash_request ≡ true)
    × (is_allowed default "ebpf" (attach "kprobe" (pos 7) "sys_open") ≡ false)
unfolding string_eq
default_answers = default_access two_groups hash_request "kprobe" "sys_open" (pos 7)
