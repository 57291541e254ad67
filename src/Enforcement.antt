-- ===== src/Enforcement.antt =====
-- The policy engine and the kernel hooks together: the entry of a namespace holds the bitmaps that
-- the policy engine computes for a role, as the documentation of src/policy.rs and
-- bpf-rbacd-common/src/lib.rs describes.
use bpf_rbacd.Base.{
  ℕ, String, true, false, none, some, ◌≡◌, refl, ◌∙◌, ◌⊎◌, ap, arith, string_eq, Result,
}
use bpf_rbacd.Base.Bits.{test_bit}
use bpf_rbacd.Base.Int.{ℤ, pos}
use bpf_rbacd.Common.{PolicyValue}
use bpf_rbacd.Protocol.{create_map}
use bpf_rbacd.Policy.{Role, Policy}
use bpf_rbacd.Policy.Tables.{prog_type_to_bit, map_type_to_bit, command_to_bit}
use bpf_rbacd.Policy.Tables.Codes.{prog_type_to_bit-lt, map_type_to_bit-lt, command_to_bit-lt}
use bpf_rbacd.Policy.Check.{is_command_allowed, is_prog_op_allowed, is_map_op_allowed, role_allows}
use bpf_rbacd.Policy.Bitmap.{prog_types_bitmap, map_types_bitmap, commands_bitmap}
use bpf_rbacd.Policy.Bitmap.Commands.{
  has_any, commands_bitmap-is_command_allowed, commands_bitmap_complete,
}
use bpf_rbacd.Policy.Bitmap.Operations.{prog_types_bitmap_complete, map_types_bitmap_complete}
use bpf_rbacd.Ebpf.{
  LsmContext, PolicyMap, allow, try_bpf_rbac_bpf, try_bpf_rbac_prog_load, try_bpf_rbac_map_create,
  fail_closed,
}
use bpf_rbacd.Ebpf.Managed.{
  verdict, IsManaged, try_bpf_rbac_bpf-managed, try_bpf_rbac_prog_load-managed,
  try_bpf_rbac_map_create-managed,
}

-- The entry of a role: its three bitmaps, and neither flag.
pub record IsEntryOf (p : Policy) (role : Role) (entry : PolicyValue) : Type 0 where
  pub commands : entry.allowed_cmds ≡ commands_bitmap p role
  pub prog_types : entry.allowed_prog_types ≡ prog_types_bitmap p role
  pub map_types : entry.allowed_map_types ≡ map_types_bitmap p role
  pub no_deny : test_bit entry.flags 1 ≡ false
  pub no_trust : test_bit entry.flags 0 ≡ false

map_create_code : command_to_bit "MAP_CREATE" ≡ some 0
unfolding command_to_bit string_eq
map_create_code = refl

create_map_parts :
    (p : Policy) (role : Role) (map_type name : String) (key_size value_size max_entries : ℕ)
    → role_allows p role (create_map map_type name key_size value_size max_entries) ≡ true
    → (is_command_allowed p role "MAP_CREATE" ≡ true)
      × (is_map_op_allowed p role map_type "create" ≡ true)
unfolding role_allows
create_map_parts p role t name ks vs me h = ground arith

module _ (p : Policy) (role : Role) (userns : Result ℕ ℤ) (policy_map : PolicyMap)
    (entry : PolicyValue) (of_role : IsEntryOf p role entry) where
  -- The hook on a bpf() call answers as `is_command_allowed` does, for a command that has a code
  -- and comes with it, and a role that does not list the wildcard or a policy with no system
  -- policy.
  pub bpf-is_command_allowed :
      (ctx : LsmContext) (command : String) (k : ℕ)
      → IsManaged userns policy_map ctx entry
      → command_to_bit command ≡ some k
      → ctx.cmd ≡ pos k
      → (has_any role.commands ≡ false) ⊎ (p.config.system_policy ≡ none)
      → fail_closed (try_bpf_rbac_bpf userns policy_map ctx)
        ≡ verdict (is_command_allowed p role command)
  bpf-is_command_allowed ctx command k managed code e side =
      try_bpf_rbac_bpf-managed userns policy_map ctx entry managed of_role.no_deny of_role.no_trust
        k (command_to_bit-lt command k code) e
      ∙ ap verdict
          (rw of_role.commands (commands_bitmap-is_command_allowed p role command k code side))

  -- A program load passes its hook if the policy allows some operation on the program type, which
  -- has a code and comes with it.
  pub prog_load_passes :
      (ctx : LsmContext) (prog_type op : String) (k : ℕ)
      → IsManaged userns policy_map ctx entry
      → prog_type_to_bit prog_type ≡ some k
      → ctx.attr ≡ some k
      → is_prog_op_allowed p role prog_type op ≡ true
      → fail_closed (try_bpf_rbac_prog_load userns policy_map ctx) ≡ allow
  prog_load_passes ctx t op k managed code e h =
      try_bpf_rbac_prog_load-managed userns policy_map ctx entry managed of_role.no_deny
        of_role.no_trust k (prog_type_to_bit-lt t k code) e
      ∙ ap verdict {y = true}
          (rw of_role.prog_types (prog_types_bitmap_complete p role t op k code h))

  -- What the proxy would do for a role, a process of a namespace with that role's entry may do
  -- itself: where a request to create a map of a type with a code is allowed, the call passes both
  -- the hook on bpf() and the hook on map creation.
  pub create_map_passes :
      (call creation : LsmContext) (map_type name : String) (key_size value_size max_entries k : ℕ)
      → IsManaged userns policy_map call entry
      → IsManaged userns policy_map creation entry
      → map_type_to_bit map_type ≡ some k
      → call.cmd ≡ pos 0
      → creation.attr ≡ some k
      → role_allows p role (create_map map_type name key_size value_size max_entries) ≡ true
      → (fail_closed (try_bpf_rbac_bpf userns policy_map call) ≡ allow)
        × (fail_closed (try_bpf_rbac_map_create userns policy_map creation) ≡ allow)
  create_map_passes call creation t name ks vs me k managed managed' code e e' h =
      let (command, op) = create_map_parts p role t name ks vs me h in
      (
        try_bpf_rbac_bpf-managed userns policy_map call entry managed of_role.no_deny
              of_role.no_trust 0 (omega arith) e
            ∙ ap verdict {y = true} (
                rw of_role.commands
                  (commands_bitmap_complete p role "MAP_CREATE" 0 map_create_code command)),
        try_bpf_rbac_map_create-managed userns policy_map creation entry managed' of_role.no_deny
              of_role.no_trust k (map_type_to_bit-lt t k code) e'
            ∙ ap verdict {y = true}
                (rw of_role.map_types (map_types_bitmap_complete p role t "create" k code op)),
      )
