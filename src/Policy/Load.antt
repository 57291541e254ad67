-- ===== src/Policy/Load.antt =====
-- `Policy::load` of src/policy.rs, and the choice of the policy in `main` of src/main.rs. Reading
-- the file and parsing YAML are parameters.
use bpf_rbacd.Base.{String, Result, ok, err, ◌>>=◌}
use bpf_rbacd.Policy.Config.{PolicyConfig, Policy}
use bpf_rbacd.Policy.Defaults.{default}

module _ (read_to_string : Result String String)
    (from_str : String → Result PolicyConfig String) where
  unfoldable pub load : Result Policy String
  load = do contents ← read_to_string; config ← from_str contents; ok (record { config = config })

  -- `unwrap_or_else(|_| Policy::default())`
  unfoldable pub startup_policy : Policy
  unfolding load
  startup_policy = elim load [ ok policy ↦ policy | err _ ↦ default ]
