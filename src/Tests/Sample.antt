-- ===== src/Tests/Sample.antt =====
-- The configuration of `test_system_policy_intersection` in src/policy.rs, and variants of it.
use bpf_rbacd.Base.{none, some, [], ◌∷◌}
use bpf_rbacd.Policy.{SystemPolicy, Role, Policy}

abbrev pub system : SystemPolicy
system = record {
  commands = "PROG_LOAD" ∷ "MAP_CREATE" ∷ [];
  prog_types = ("kprobe", "load" ∷ "attach" ∷ []) ∷ [];
  map_types = ("hash", "create" ∷ "read" ∷ []) ∷ [];
}

abbrev pub test_role : Role
test_role = record {
  description = none;
  groups = "test" ∷ [];
  commands = "PROG_LOAD" ∷ "MAP_CREATE" ∷ "LINK_CREATE" ∷ [];
  prog_types = ("kprobe", "load" ∷ "attach" ∷ "detach" ∷ []) ∷ ("xdp", "load" ∷ []) ∷ [];
  map_types = ("hash", "create" ∷ "read" ∷ "write" ∷ []) ∷ ("array", "create" ∷ []) ∷ [];
}

abbrev pub sample : Policy
sample = record {
  config = record { system_policy = some system; roles = ("test", test_role) ∷ [] };
}

-- A role with the wildcard in every dimension.
abbrev pub wild_role : Role
wild_role = record {
  description = none;
  groups = "wheel" ∷ [];
  commands = "any" ∷ [];
  prog_types = ("any", "any" ∷ []) ∷ [];
  map_types = ("any", "any" ∷ []) ∷ [];
}

-- A role whose only program type shares the code of `kprobe`.
abbrev pub uprobe_role : Role
uprobe_role = record test_role { prog_types = ("uprobe", "load" ∷ []) ∷ [] }
