-- ===== src/Tests/Bitmaps.antt =====
-- Bitmaps of src/policy.rs.
use mathlib.Core.List.Perm
use bpf_rbacd.Base.{
  ℕ, ◌+◌, ◌^◌, String, true, false, ◌&&◌, ◌||◌, some, List, [], ◌∷◌, HashMap, get, contains_key,
  ◌≡◌, refl, inl, arith, string_eq, nat_eq,
}
use bpf_rbacd.Base.Bits.{test_bit}
use bpf_rbacd.Policy.Check.{
  lists, check_type_op, is_command_allowed, is_prog_op_allowed, is_map_op_allowed,
}
use bpf_rbacd.Policy.Tables.{prog_type_to_bit, map_type_to_bit, command_to_bit}
use bpf_rbacd.Policy.Bitmap.{prog_types_bitmap, map_types_bitmap, commands_bitmap}
use bpf_rbacd.Policy.Bitmap.Commands.{has_any, commands_bitmap_exceeds}
use bpf_rbacd.Policy.Bitmap.Types.{lists_code, ceiling_admits, type_bitmaps_digits}
use bpf_rbacd.Policy.Bitmap.Operations.{prog_types_bitmap_exceeds, prog_types_bitmap_shared}
use bpf_rbacd.Policy.Bitmap.Order.{type_bitmaps_order}
use bpf_rbacd.Policy.Defaults.{default, ebpf_role}
use bpf_rbacd.Policy.{Role}
use bpf_rbacd.Namespace.Options.{to_mount_data}
use bpf_rbacd.Delegation.{role_opts, Delegates, mount_data_grants}
use bpf_rbacd.Tests.Sample.{system, sample, test_role, wild_role, uprobe_role}

-- The assertions of `test_bitmap_generation`: kprobe, tracepoint, no xdp; hash, array, no devmap.
default_bitmaps :
    (prog_types_bitmap default ebpf_role ≡ 2 ^ 2 + 2 ^ 5 + 2 ^ 7 + 2 ^ 17)
    × (map_types_bitmap default ebpf_role ≡ 2 ^ 1 + 2 ^ 2 + 2 ^ 4 + 2 ^ 27)
unfolding prog_types_bitmap map_types_bitmap prog_type_to_bit map_type_to_bit default string_eq
default_bitmaps = (refl, refl)

sample_bitmaps :
    (commands_bitmap sample test_role ≡ 2 ^ 5 + 2 ^ 0)
    × (prog_types_bitmap sample test_role ≡ 2 ^ 2)
    × (map_types_bitmap sample test_role ≡ 2 ^ 1)
    × (commands_bitmap sample wild_role ≡ 0xFFFFFFFF)
unfolding commands_bitmap prog_types_bitmap map_types_bitmap prog_type_to_bit map_type_to_bit
    command_to_bit string_eq
sample_bitmaps = (refl, refl, refl, refl)

prog_load_code : command_to_bit "PROG_LOAD" ≡ some 5
unfolding command_to_bit string_eq
prog_load_code = refl

link_create_code : command_to_bit "LINK_CREATE" ≡ some 28
unfolding command_to_bit string_eq
link_create_code = refl

kprobe_code : prog_type_to_bit "kprobe" ≡ some 2
unfolding prog_type_to_bit string_eq
kprobe_code = refl

uprobe_code : prog_type_to_bit "uprobe" ≡ some 2
unfolding prog_type_to_bit string_eq
uprobe_code = refl

xdp_code : prog_type_to_bit "xdp" ≡ some 6
unfolding prog_type_to_bit string_eq
xdp_code = refl

hash_code : map_type_to_bit "hash" ≡ some 1
unfolding map_type_to_bit string_eq
hash_code = refl

no_wildcard : has_any test_role.commands ≡ false
unfolding string_eq
no_wildcard = refl

load_allowed : is_command_allowed sample test_role "PROG_LOAD" ≡ true
unfolding is_command_allowed string_eq
load_allowed = refl

wildcard : has_any wild_role.commands ≡ true
unfolding string_eq
wildcard = refl

link_create_unlisted : lists system.commands "LINK_CREATE" ≡ false
unfolding lists string_eq
link_create_unlisted = refl

commands_bitmap_exceeds_example :
    (test_bit (commands_bitmap sample wild_role) 28 ≡ true)
    × (is_command_allowed sample wild_role "LINK_CREATE" ≡ false)
commands_bitmap_exceeds_example =
    commands_bitmap_exceeds sample wild_role "LINK_CREATE" 28 link_create_code system refl wildcard
      link_create_unlisted

type_bitmaps_digits_example :
    (test_bit (prog_types_bitmap sample test_role) 6 ≡ (
      contains_key "any" test_role.prog_types
      || lists_code prog_type_to_bit 6 test_role.prog_types
        && ceiling_admits prog_type_to_bit 6 (λ s. s.prog_types) sample.config.system_policy))
    × (test_bit (map_types_bitmap sample test_role) 6 ≡ (
        contains_key "any" test_role.map_types
        || lists_code map_type_to_bit 6 test_role.map_types
          && ceiling_admits map_type_to_bit 6 (λ s. s.map_types) sample.config.system_policy))
type_bitmaps_digits_example = type_bitmaps_digits sample test_role 6 (omega arith)

kprobe_attach : is_prog_op_allowed sample test_role "kprobe" "attach" ≡ true
unfolding is_prog_op_allowed get string_eq
kprobe_attach = refl

hash_create : is_map_op_allowed sample test_role "hash" "create" ≡ true
unfolding is_map_op_allowed get string_eq
hash_create = refl

xdp_uncovered :
    (contains_key "any" wild_role.prog_types ≡ true)
    × (check_type_op system.prog_types "xdp" "load" ≡ false)
unfolding contains_key check_type_op get string_eq
xdp_uncovered = (refl, refl)

prog_types_bitmap_exceeds_example :
    (test_bit (prog_types_bitmap sample wild_role) 6 ≡ true)
    × (is_prog_op_allowed sample wild_role "xdp" "load" ≡ false)
prog_types_bitmap_exceeds_example =
    prog_types_bitmap_exceeds sample wild_role system "xdp" "load" 6 xdp_code refl xdp_uncovered.0
      xdp_uncovered.1

uprobe_listed :
    (contains_key "uprobe" uprobe_role.prog_types ≡ true)
    × (contains_key "kprobe" system.prog_types ≡ true)
    × (contains_key "any" system.prog_types ≡ false)
    × (contains_key "uprobe" system.prog_types ≡ false)
unfolding contains_key string_eq
uprobe_listed = (refl, refl, refl, refl)

prog_types_bitmap_shared_example :
    (test_bit (prog_types_bitmap sample uprobe_role) 2 ≡ true)
    × (is_prog_op_allowed sample uprobe_role "uprobe" "load" ≡ false)
prog_types_bitmap_shared_example =
    prog_types_bitmap_shared sample uprobe_role system "uprobe" "kprobe" "load" 2 uprobe_code
      kprobe_code refl uprobe_listed.0 uprobe_listed.1 uprobe_listed.2 uprobe_listed.3

abbrev swapped_progs : HashMap (List String)
swapped_progs = ("xdp", "load" ∷ []) ∷ ("kprobe", "load" ∷ "attach" ∷ "detach" ∷ []) ∷ []

abbrev swapped_maps : HashMap (List String)
swapped_maps = ("array", "create" ∷ []) ∷ ("hash", "create" ∷ "read" ∷ "write" ∷ []) ∷ []

abbrev swapped_role : Role
swapped_role = record test_role { prog_types = swapped_progs; map_types = swapped_maps }

swapped_bitmaps :
    (prog_types_bitmap sample test_role ≡ prog_types_bitmap sample swapped_role)
    × (map_types_bitmap sample test_role ≡ map_types_bitmap sample swapped_role)
swapped_bitmaps =
    type_bitmaps_order sample test_role swapped_progs swapped_maps (Perm.swap _ _ _)
      (Perm.swap _ _ _)

mount_data_grants_example :
    (cmds : ℕ) × (progs : ℕ) × (maps : ℕ) × Delegates
      (to_mount_data (role_opts sample test_role 0))
      cmds
      progs
      maps
      0
    × (test_bit cmds 28 ≡ is_command_allowed sample test_role "LINK_CREATE")
    × (test_bit progs 2 ≡ true)
    × (test_bit maps 1 ≡ true)
mount_data_grants_example =
    mount_data_grants sample test_role "LINK_CREATE" "kprobe" "attach" "hash" "create" 28 2 1 0
      (omega arith) link_create_code (inl no_wildcard) kprobe_code kprobe_attach hash_code
      hash_create
