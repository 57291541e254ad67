-- ===== src/Policy/Defaults/Access.antt =====
-- What `Policy::default()` of src/policy.rs gives to whom.
use bpf_rbacd.Base.{
  String, true, false, none, some, List, get, ◌≡◌, refl, arith, string_eq, if◌then◌else◌,
}
use bpf_rbacd.Protocol.{Request, load_program, create_map, attach}
use bpf_rbacd.Base.Int.{ℤ}
use bpf_rbacd.Policy.Check.{is_allowed}
use bpf_rbacd.Policy.Roles.{has_group, get_role_for_groups}
use bpf_rbacd.Policy.Defaults.{default}

get_role_for_groups-default :
    (user_groups : List String)
    → get_role_for_groups default user_groups ≡ (
        if has_group user_groups "ebpf-admin"
        then some "ebpf-admin"
        else if has_group user_groups "ebpf-net"
        then some "ebpf-net"
        else if has_group user_groups "ebpf"
        then some "ebpf"
        else none)
unfolding get_role_for_groups default get string_eq
get_role_for_groups-default user_groups = ground arith

is_allowed-default :
    (request : Request) (attach_type target : String) (prog_fd : ℤ)
    → (is_allowed default "ebpf-admin" request ≡ true)
      × (is_allowed default "ebpf" (attach attach_type prog_fd target) ≡ false)
unfolding is_allowed default get string_eq
is_allowed-default (load_program t path name) _ _ _ = (refl, refl)
is_allowed-default (create_map t name ks vs me) _ _ _ = (refl, refl)
is_allowed-default (attach t fd target) _ _ _ = (refl, refl)

-- Under the default policy the role for a list of groups is that of the first of `ebpf-admin`,
-- `ebpf-net` and `ebpf` that is among them, and none without any of them; the administrator's role
-- is allowed every request, and the tracing role no request to attach.
pub default_access :
    (user_groups : List String) (request : Request) (attach_type target : String) (prog_fd : ℤ)
    → (get_role_for_groups default user_groups ≡ (
        if has_group user_groups "ebpf-admin"
        then some "ebpf-admin"
        else if has_group user_groups "ebpf-net"
        then some "ebpf-net"
        else if has_group user_groups "ebpf"
        then some "ebpf"
        else none))
      × (is_allowed default "ebpf-admin" request ≡ true)
      × (is_allowed default "ebpf" (attach attach_type prog_fd target) ≡ false)
default_access user_groups request attach_type target prog_fd =
    let (admin, tracing) = is_allowed-default request attach_type target prog_fd in
    (get_role_for_groups-default user_groups, admin, tracing)
