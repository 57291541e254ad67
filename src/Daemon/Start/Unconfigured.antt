-- ===== src/Daemon/Start/Unconfigured.antt =====
-- Whom the daemon of src/main.rs serves when it has started without a policy file.
use bpf_rbacd.Base.{
  ℕ, String, true, List, [], ◌∷◌, In, ◌≡◌, refl, sym, ap, subst, ◌∙◌, inl, inr, string_eq, Result,
  ok, err,
}
use bpf_rbacd.Policy.{PolicyConfig, Role, Policy}
use bpf_rbacd.Protocol.{Request}
use bpf_rbacd.Policy.Check.{is_allowed}
use bpf_rbacd.Policy.Check.Decides.{is_allowed_iff}
use bpf_rbacd.Policy.Roles.{priority}
use bpf_rbacd.Policy.Defaults.{default, ebpf_role, ebpf_net_role, ebpf_admin_role}
use bpf_rbacd.Policy.Load.{load, startup_policy}
use bpf_rbacd.Daemon.Groups.{NameService, get_user_groups}
use bpf_rbacd.Daemon.Handler.{Connection}
use bpf_rbacd.Daemon.Handler.Authority.{Authorised}
use bpf_rbacd.Daemon.Start.{Files, start}
use bpf_rbacd.Daemon.Start.Serving.{default-IsWellFormed, start-open_socket}

-- The client's user, of SO_PEERCRED, is in the group of this name, whose role of the default policy is
-- allowed the request.
pub record Member (ns : NameService) (conn : Connection) (request : Request) : Type 0 where
  pub uid : ℕ
  pub groups : List String
  pub name : String
  pub peer : conn.peer_uid ≡ ok uid
  pub user : get_user_groups ns uid ≡ ok groups
  pub known : In name priority
  pub inside : In name groups
  pub allowed : is_allowed default name request ≡ true

own_group :
    (name n : String) (role r : Role)
    → Path (String × Role) (name, role) (n, r)
    → r.groups ≡ n ∷ []
    → (name ≡ n) × (role.groups ≡ name ∷ [])
own_group name n role r e h =
    let same : name ≡ n = ap (λ (x : String × Role). x.0) e in
    (same, ap (λ (x : String × Role). x.1.groups) e ∙ h ∙ ap (λ (m : String). m ∷ []) (sym same))

-- Each role of the default policy is one of the well-known ones, and has its own name for group.
default_roles :
    (name : String) (role : Role)
    → In (name, role) default.config.roles
    → In name priority × (role.groups ≡ name ∷ [])
unfolding default string_eq ebpf_role ebpf_net_role ebpf_admin_role
default_roles name role (inl e) =
    let (same, own) = own_group name "ebpf" role ebpf_role e refl in (inr (inr (inl same)), own)
default_roles name role (inr (inl e)) =
    let (same, own) = own_group name "ebpf-net" role ebpf_net_role e refl in (inr (inl same), own)
default_roles name role (inr (inr (inl e))) =
    let (same, own) = own_group name "ebpf-admin" role ebpf_admin_role e refl in (inl same, own)
default_roles name role (inr (inr (inr h))) = absurd h.1

only_group :
    (name group : String) (groups : List String)
    → groups ≡ name ∷ []
    → In group groups
    → group ≡ name
only_group name group groups e m = one (subst (λ (gs : List String). In group gs) e m)
  where
    one : In group (name ∷ []) → group ≡ name
    one (inl same) = same
    one (inr h) = absurd h.1

Authorised-Member :
    (ns : NameService) (conn : Connection) (request : Request)
    → Authorised ns default conn request
    → Member ns conn request
Authorised-Member ns conn request a =
    let (known, own) = default_roles a.role_name a.role a.listed in
    let (group, named, inside) = a.shared in
    record {
      uid = a.uid;
      groups = a.groups;
      name = a.role_name;
      peer = a.peer;
      user = a.user;
      known = known;
      inside =
          subst (λ (g : String). In g a.groups)
            (only_group a.role_name group a.role.groups own named) inside;
      allowed =
          (is_allowed_iff default a.role_name request default-IsWellFormed).1
            (a.role, a.listed, a.granted);
    }

startup_policy-default :
    (read : Result String String) (from_str : String → Result PolicyConfig String) (e : String)
    → load read from_str ≡ err e
    → startup_policy read from_str ≡ default
unfolding startup_policy
startup_policy-default read from_str e failed = rw (failed, startup_policy) refl

-- A daemon that has started without a policy file that can be read and parsed authorises only users, by
-- the word of SO_PEERCRED, in one of the groups ebpf-admin, ebpf-net and ebpf, for requests that the
-- default policy allows to the role of that name.
pub start-Member :
    (files : Files) (ns : NameService) (policy : Policy) (listener : files.Listener)
    (before after : files.State) (e : String) (conn : Connection) (request : Request)
    → load (files.read_to_string "/etc/bpf-rbac/policy.yaml" before) files.from_str ≡ err e
    → start files before ≡ (ok (policy, listener), after)
    → Authorised ns policy conn request
    → Member ns conn request
start-Member files ns policy listener before after e conn request missing started authorised =
    let (chosen, _) = start-open_socket files policy listener before after started in
    let read = files.read_to_string "/etc/bpf-rbac/policy.yaml" before in
    let is_default : policy ≡ default =
      chosen ∙ startup_policy-default read files.from_str e missing in
    Authorised-Member ns conn request
      (subst (λ (p : Policy). Authorised ns p conn request) is_default authorised)
