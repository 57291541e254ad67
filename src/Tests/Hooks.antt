-- ===== src/Tests/Hooks.antt =====
-- The hooks of bpf-rbacd-ebpf/src/main.rs.
use bpf_rbacd.Base.{
  get, ℕ, true, false, none, some, ◌≡◌, ◌↔◌, refl, inl, arith, string_eq, nat_eq, Result, ok, ◌==◌,
  if◌then◌else◌,
}
use bpf_rbacd.Base.Bits.{test_bit}
use bpf_rbacd.Base.Int.{ℤ, pos}
use bpf_rbacd.Common
use bpf_rbacd.Common.{PolicyKey, PolicyValue}
use bpf_rbacd.Ebpf.{
  LsmContext, PolicyMap, allow, eperm, try_bpf_rbac_bpf, try_bpf_rbac_prog_load,
  try_bpf_rbac_map_create, fail_closed, bpf_rbac_bpf, bpf_rbac_prog_load, bpf_rbac_map_create,
}
use bpf_rbacd.Ebpf.Verdict.{Passes, HasBit, HasWordBit, try_bpf_rbac_bpf_iff, attr_hooks_iff}
use bpf_rbacd.Ebpf.Managed.{verdict, IsManaged, try_bpf_rbac_bpf_high}
use bpf_rbacd.Ebpf.Skeleton.{hooks_same}
use bpf_rbacd.Daemon.Syscall.{map_type_num, map_attr}
use bpf_rbacd.Policy.Check.{is_command_allowed, is_prog_op_allowed, role_allows}
use bpf_rbacd.Policy.Bitmap.{prog_types_bitmap, map_types_bitmap, commands_bitmap}
use bpf_rbacd.Policy.Bitmap.Commands.{has_any}
use bpf_rbacd.Policy.Tables.{prog_type_to_bit, map_type_to_bit, command_to_bit}
use bpf_rbacd.Protocol.{create_map}
use bpf_rbacd.Enforcement.{IsEntryOf, bpf-is_command_allowed, prog_load_passes, create_map_passes}
use bpf_rbacd.Tests.Sample.{sample, test_role}

-- A bpf() call from user space, with a command and the first word of its attributes.
abbrev call : ℕ → ℕ → LsmContext
call cmd word = record { cmd = pos cmd; attr = some word; kernel = 0 }

abbrev entry : PolicyValue
entry = record Common.empty {
  allowed_cmds = commands_bitmap sample test_role;
  allowed_prog_types = prog_types_bitmap sample test_role;
  allowed_map_types = map_types_bitmap sample test_role;
}

-- One managed namespace, 4026531837.
abbrev one_entry : PolicyValue → PolicyMap
one_entry value key = if key.userns_id == 4026531837 then some value else none

abbrev inside : Result ℕ ℤ
inside = ok 4026531837

entry_hooks :
    (fail_closed (try_bpf_rbac_bpf inside (one_entry entry) (call 5 0)) ≡ allow)
    × (fail_closed (try_bpf_rbac_bpf inside (one_entry entry) (call 28 0)) ≡ eperm)
    × (fail_closed (try_bpf_rbac_prog_load inside (one_entry entry) (call 5 2)) ≡ allow)
    × (fail_closed (try_bpf_rbac_prog_load inside (one_entry entry) (call 5 6)) ≡ eperm)
    × (fail_closed (try_bpf_rbac_map_create (ok 1) (one_entry entry) (call 0 9)) ≡ allow)
    × (fail_closed (try_bpf_rbac_bpf inside (one_entry Common.allow_all) (call 31 0)) ≡ allow)
unfolding try_bpf_rbac_bpf try_bpf_rbac_prog_load try_bpf_rbac_map_create commands_bitmap
    prog_types_bitmap map_types_bitmap prog_type_to_bit map_type_to_bit command_to_bit string_eq
    nat_eq
entry_hooks = (refl, refl, refl, refl, refl, refl)

try_bpf_rbac_bpf_iff_example :
    (fail_closed (try_bpf_rbac_bpf inside (one_entry entry) (call 5 0)) ≡ allow)
    ↔ Passes 0 inside (one_entry entry) (λ policy. HasBit policy.allowed_cmds 5)
try_bpf_rbac_bpf_iff_example = try_bpf_rbac_bpf_iff inside (one_entry entry) (call 5 0)

attr_hooks_iff_example :
    ((fail_closed (try_bpf_rbac_prog_load inside (one_entry entry) (call 5 2)) ≡ allow)
      ↔ Passes 0 inside (one_entry entry) (λ policy. HasWordBit policy.allowed_prog_types (some 2)))
    × ((fail_closed (try_bpf_rbac_map_create inside (one_entry entry) (call 5 2)) ≡ allow)
        ↔ Passes 0 inside
            (one_entry entry)
            (λ policy. HasWordBit policy.allowed_map_types (some 2)))
attr_hooks_iff_example = attr_hooks_iff inside (one_entry entry) (call 5 2)

managed :
    (value : PolicyValue) (cmd word : ℕ) → IsManaged inside (one_entry value) (call cmd word) value
unfolding nat_eq
managed value cmd word = record {
  id = 4026531837;
  from_user = refl;
  identified = refl;
  listed = refl;
}

allow_all_unflagged : test_bit Common.allow_all.flags 0 ≡ false
unfolding test_bit nat_eq
allow_all_unflagged = refl

try_bpf_rbac_bpf_high_example :
    fail_closed
      (try_bpf_rbac_bpf inside (one_entry Common.allow_all) (call Common.Commands.token_create 0))
    ≡ eperm
try_bpf_rbac_bpf_high_example =
    try_bpf_rbac_bpf_high inside (one_entry Common.allow_all) (call 33 0) Common.allow_all
      (managed Common.allow_all 33 0) allow_all_unflagged (omega arith)

-- An entry for the namespace of the call changes nothing.
hooks_same_example :
    (bpf_rbac_bpf (one_entry Common.empty) (call 5 2)
      ≡ bpf_rbac_bpf (one_entry Common.allow_all) (call 5 2))
    × (bpf_rbac_prog_load (one_entry Common.empty) (call 5 2)
        ≡ bpf_rbac_prog_load (one_entry Common.allow_all) (call 5 2))
    × (bpf_rbac_map_create (one_entry Common.empty) (call 5 2)
        ≡ bpf_rbac_map_create (one_entry Common.allow_all) (call 5 2))
unfolding nat_eq
hooks_same_example =
    hooks_same (one_entry Common.empty) (one_entry Common.allow_all) (call 5 2) refl

entry-IsEntryOf : IsEntryOf sample test_role entry
unfolding test_bit nat_eq
entry-IsEntryOf = record {
  commands = refl;
  prog_types = refl;
  map_types = refl;
  no_deny = refl;
  no_trust = refl;
}

no_wildcard : has_any test_role.commands ≡ false
unfolding string_eq
no_wildcard = refl

codes :
    (command_to_bit "LINK_CREATE" ≡ some 28)
    × (prog_type_to_bit "kprobe" ≡ some 2)
    × (map_type_to_bit "hash" ≡ some 1)
unfolding command_to_bit prog_type_to_bit map_type_to_bit string_eq
codes = (refl, refl, refl)

bpf-is_command_allowed_example :
    fail_closed (try_bpf_rbac_bpf inside (one_entry entry) (call 28 0))
    ≡ verdict (is_command_allowed sample test_role "LINK_CREATE")
bpf-is_command_allowed_example =
    bpf-is_command_allowed sample test_role inside (one_entry entry) entry entry-IsEntryOf
      (call 28 0) "LINK_CREATE" 28 (managed entry 28 0) codes.0 refl (inl no_wildcard)

kprobe_attach : is_prog_op_allowed sample test_role "kprobe" "attach" ≡ true
unfolding is_prog_op_allowed string_eq get
kprobe_attach = refl

prog_load_passes_example :
    fail_closed (try_bpf_rbac_prog_load inside (one_entry entry) (call 5 2)) ≡ allow
prog_load_passes_example =
    prog_load_passes sample test_role inside (one_entry entry) entry entry-IsEntryOf (call 5 2)
      "kprobe" "attach" 2 (managed entry 5 2) codes.1 refl kprobe_attach

hash_allowed : role_allows sample test_role (create_map "hash" "m" 4 8 16) ≡ true
unfolding role_allows string_eq get
hash_allowed = refl

create_map_passes_example :
    (fail_closed (try_bpf_rbac_bpf inside (one_entry entry) (call 0 1)) ≡ allow)
    × (fail_closed (try_bpf_rbac_map_create inside (one_entry entry) (call 0 1)) ≡ allow)
create_map_passes_example =
    create_map_passes sample test_role inside (one_entry entry) entry entry-IsEntryOf (call 0 1)
      (call 0 1) "hash" "m" 4 8 16 1 (managed entry 0 1) (managed entry 0 1) codes.2 refl refl
      hash_allowed

hash_supported : map_type_num "hash" ≡ some 1
unfolding map_type_num string_eq get
hash_supported = refl

hash_attribute : (call 0 1).attr ≡ some (map_attr 1 "m" 4 8 16).map_type
unfolding map_attr
hash_attribute = refl
