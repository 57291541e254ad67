-- ===== src/Delegation.antt =====
-- The policy engine of src/policy.rs through the mount data of src/namespace.rs: what a bpffs that
-- is mounted for a role delegates.
use bpf_rbacd.Base.{ℕ, ◌<◌, ◌^◌, String, true, false, none, some, ◌≡◌, ◌⊎◌}
use bpf_rbacd.Base.Bits.{test_bit}
use bpf_rbacd.Policy.{Role, Policy}
use bpf_rbacd.Policy.Check.{is_command_allowed, is_prog_op_allowed, is_map_op_allowed}
use bpf_rbacd.Policy.Tables.{command_to_bit, prog_type_to_bit, map_type_to_bit}
use bpf_rbacd.Policy.Bitmap.{commands_bitmap, prog_types_bitmap, map_types_bitmap}
use bpf_rbacd.Policy.Bitmap.Width.{commands_bitmap-lt, prog_types_bitmap-lt, map_types_bitmap-lt}
use bpf_rbacd.Policy.Bitmap.Commands.{has_any, commands_bitmap-is_command_allowed}
use bpf_rbacd.Policy.Bitmap.Operations.{prog_types_bitmap_complete, map_types_bitmap_complete}
use bpf_rbacd.Namespace.Options.{DelegationOpts, from_bitmaps, to_mount_data}
use bpf_rbacd.Namespace.Options.Reader.{read_options}
use bpf_rbacd.Namespace.Options.RoundTrip.{four_options, read_options-to_mount_data}

-- The options that the docs of `from_bitmaps` give for a role.
abbrev pub role_opts : Policy → Role → ℕ → DelegationOpts
role_opts p role attachs =
    from_bitmaps (commands_bitmap p role) (prog_types_bitmap p role) (map_types_bitmap p role)
      attachs

-- What a reader of mount data finds.
pub record Delegates (mount_data : String) (cmds progs maps attachs : ℕ) : Type 0 where
  pub reads : read_options 4 mount_data ≡ four_options cmds progs maps attachs

module _ (p : Policy) (role : Role) where
  -- For a program type and a map type, both with codes, on each of which the policy allows some
  -- operation, and a command with a code, where the role's commands do not list the wildcard or
  -- there is no system policy: the mount data for the role, its options read by their names,
  -- delegates the program type under delegate_progs and the map type under delegate_maps, and
  -- delegates the command under delegate_cmds exactly if the policy allows it.
  pub mount_data_grants :
      (command prog_type prog_op map_type map_op : String) (k j i attachs : ℕ)
      → attachs < 2 ^ 32
      → command_to_bit command ≡ some k
      → (has_any role.commands ≡ false) ⊎ (p.config.system_policy ≡ none)
      → prog_type_to_bit prog_type ≡ some j
      → is_prog_op_allowed p role prog_type prog_op ≡ true
      → map_type_to_bit map_type ≡ some i
      → is_map_op_allowed p role map_type map_op ≡ true
      → (cmds : ℕ) × (progs : ℕ) × (maps : ℕ) × Delegates
          (to_mount_data (role_opts p role attachs))
          cmds
          progs
          maps
          attachs
        × (test_bit cmds k ≡ is_command_allowed p role command)
        × (test_bit progs j ≡ true)
        × (test_bit maps i ≡ true)
  mount_data_grants command prog_type prog_op map_type map_op k j i attachs small code side
        prog_code prog_ok map_code map_ok =
      (
        commands_bitmap p role,
        prog_types_bitmap p role,
        map_types_bitmap p role,
        record {
          reads =
              read_options-to_mount_data (role_opts p role attachs) (commands_bitmap-lt p role)
                (prog_types_bitmap-lt p role) (map_types_bitmap-lt p role) small;
        },
        commands_bitmap-is_command_allowed p role command k code side,
        prog_types_bitmap_complete p role prog_type prog_op j prog_code prog_ok,
        map_types_bitmap_complete p role map_type map_op i map_code map_ok,
      )
