-- ===== src/Policy/Check/Ceiling.antt =====
-- The system policy as a ceiling on what the checks of src/policy.rs allow.
use bpf_rbacd.Base.{
  String, Bool, true, ◌&&◌, none, some, [], get, ◌≡◌, arith, Option-cases, inl, inr,
}
use bpf_rbacd.Protocol.{Request, load_program, create_map, attach}
use bpf_rbacd.Policy.Config.{SystemPolicy, Role, Policy}
use bpf_rbacd.Policy.Check.{role_allows, is_allowed}

-- The policy with its `system_policy` section taken out.
abbrev pub uncapped : Policy → Policy
uncapped p = record { config = record { system_policy = none; roles = p.config.roles } }

-- The role that holds all that a system policy lists.
abbrev pub ceiling_role : SystemPolicy → Role
ceiling_role system = record {
  description = none;
  groups = [];
  commands = system.commands;
  prog_types = system.prog_types;
  map_types = system.map_types;
}

-- What the system policy alone would allow.
abbrev pub ceiling_allows : Policy → Request → Bool
ceiling_allows p request = elim p.config.system_policy [
  | some system ↦ role_allows (uncapped p) (ceiling_role system) request
  | none ↦ true
]

role_allows-intersection :
    (p : Policy) (role : Role) (request : Request)
    → role_allows p role request
      ≡ (role_allows (uncapped p) role request && ceiling_allows p request)
unfolding role_allows
role_allows-intersection p role (load_program t _ _) = ground arith
role_allows-intersection p role (create_map t _ _ _ _) = ground arith
role_allows-intersection p role (attach t _ _) = ground arith

-- The effective permissions are the intersection of the role's and the system policy's: a request
-- is allowed if and only if it is allowed without the system policy and a role that holds exactly
-- the lists of the system policy would be allowed it, where there is a system policy.
pub is_allowed-intersection :
    (p : Policy) (role_name : String) (request : Request)
    → is_allowed p role_name request
      ≡ (is_allowed (uncapped p) role_name request && ceiling_allows p request)
unfolding is_allowed
is_allowed-intersection p name request = elim (Option-cases (get name p.config.roles)) [
  | inr (role, found) ↦ rw (found, is_allowed) (role_allows-intersection p role request)
  | inl missing ↦ rw (missing, is_allowed)
]
