-- ===== src/Daemon/Start.antt =====
-- `main` of src/main.rs, up to the accept loop. The file system and the listener are parameters.
pub mod Serving
pub mod Unconfigured
use bpf_rbacd.Base.{ℕ, String, Result}
use bpf_rbacd.Base.Effects.{Effect, ◌>>=◌, with_context, ignore, pure}
use bpf_rbacd.Policy.{PolicyConfig, Policy}
use bpf_rbacd.Policy.Load.{startup_policy}

abbrev pub socket_path : String
socket_path = "/run/bpf-rbac.sock"

-- `read_to_string` and `from_str` are what `Policy::load` calls.
pub record Files : Type 1 where
  pub State : Type 0
  pub Listener : Type 0
  pub read_to_string : String → State → Result String String
  pub from_str : String → Result PolicyConfig String
  pub remove_file : String → Effect State (Unit {0})
  pub bind : String → Effect State Listener
  pub set_permissions : String → ℕ → Effect State (Unit {0})

module _ (files : Files) where
  unfoldable pub open_socket : Effect files.State files.Listener
  open_socket = do
    _ ← ignore (files.remove_file socket_path)
    listener ← with_context "Failed to bind socket" (files.bind socket_path)
    _ ← files.set_permissions socket_path 0o777
    pure listener

  unfoldable pub start : Effect files.State (Policy × files.Listener)
  unfolding open_socket startup_policy
  start s =
      let policy =
        startup_policy (files.read_to_string "/etc/bpf-rbac/policy.yaml" s) files.from_str in
      (open_socket >>= λ listener. pure (policy, listener)) s
