-- ===== src/Daemon/Start/Serving.antt =====
-- `main` of src/main.rs from its start to any state of its accept loop.
use bpf_rbacd.Base.{String, get, ◌≡◌, refl, Result, ok, err, string_eq}
use bpf_rbacd.Base.Effects.{pure, ok_of_chain}
use bpf_rbacd.Protocol.{Codec}
use bpf_rbacd.Protocol.Client.{socket_path as client_path}
use bpf_rbacd.Policy.{PolicyConfig, Policy}
use bpf_rbacd.Policy.Check.Grants.{IsWellFormed}
use bpf_rbacd.Policy.Defaults.{default}
use bpf_rbacd.Policy.Load.{load, startup_policy}
use bpf_rbacd.Daemon.Groups.{NameService}
use bpf_rbacd.Daemon.System.{System}
use bpf_rbacd.Daemon.Server.{Server}
use bpf_rbacd.Daemon.Server.History.{History}
use bpf_rbacd.Daemon.Start.{Files, socket_path, open_socket, start}

-- Where the policy comes from: the file, or the default if the file is not there or does not parse.
pub data Source (read : Result String String) (from_str : String → Result PolicyConfig String)
    : Policy → Type 0 where
  of_file :
      (contents : String) (config : PolicyConfig)
      → read ≡ ok contents
      → from_str contents ≡ ok config
      → Source read from_str (record { config = config })
  of_default : (e : String) → load read from_str ≡ err e → Source read from_str default

-- The maps of what the parser gives are maps.
abbrev pub GivesMaps : (String → Result PolicyConfig String) → Type 0
GivesMaps from_str =
    (contents : String) (config : PolicyConfig)
    → from_str contents ≡ ok config
    → IsWellFormed (record { config = config })

pub default-IsWellFormed : IsWellFormed default
unfolding default get string_eq
default-IsWellFormed = record {
  names_distinct = (refl, (refl, (refl, tt)));
  roles_distinct = (
    ((refl, (refl, (refl, (refl, (refl, tt))))), (refl, (refl, (refl, (refl, tt))))),
    (
      ((refl, (refl, (refl, tt))), (refl, (refl, (refl, (refl, tt))))),
      (((refl, tt), (refl, tt)), tt),
    ),
  );
  ceiling_distinct = tt;
}

-- What the daemon has done when its loop begins, and what its clients have brought about since.
pub record Serving (files : Files) (sys : System) (codec : Codec) (ns : NameService)
    (policy : Policy) (listener : files.Listener) (before after : files.State) (s s' : sys.State)
    : Type 0 where
  pub bound_in : files.State
  pub bound : files.State
  pub source :
      Source (files.read_to_string "/etc/bpf-rbac/policy.yaml" before) files.from_str policy
  pub removed : bound_in ≡ (files.remove_file socket_path before).1
  pub listens : files.bind client_path bound_in ≡ (ok listener, bound)
  pub open_to_all : files.set_permissions socket_path 0o777 bound ≡ (ok tt, after)
  pub history : History sys codec ns policy s s'

module _ (files : Files) where
  pub start-open_socket :
      (policy : Policy) (listener : files.Listener) (before after : files.State)
      → start files before ≡ (ok (policy, listener), after)
      → (policy
          ≡ startup_policy (files.read_to_string "/etc/bpf-rbac/policy.yaml" before) files.from_str)
        × (open_socket files before ≡ (ok listener, after))
  unfolding start
  start-open_socket policy listener before after h =
      let chosen =
        startup_policy (files.read_to_string "/etc/bpf-rbac/policy.yaml" before) files.from_str in
      let (l, t, opened, h₁) =
        ok_of_chain (open_socket files) (λ l. pure (chosen, l)) (policy, listener) before after h in
      (cc, cc)
