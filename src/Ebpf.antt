-- ===== src/Ebpf.antt =====
-- bpf-rbacd-ebpf/src/main.rs: the three LSM hooks. The policy map is the kernel's, seen through
-- `POLICY_MAP.get`; a context gives the hook's arguments as the hook reads them.
pub mod Verdict
pub mod Skeleton
pub mod Managed
use bpf_rbacd.Base.{
  ℕ, ◌-◌, ◌^◌, Bool, ◌&&◌, Option, none, some, bit_and, ◌!=◌, nat_eq, ltb, if◌then◌else◌, Result,
  ok, err, ◌>>=◌,
}
use bpf_rbacd.Base.Bits.{masks}
use bpf_rbacd.Base.Int.{ℤ, pos, negsuc}
use bpf_rbacd.Common.{PolicyKey, PolicyValue, policy_flag_allow_all, policy_flag_deny_all}

-- `ctx.arg(0)` as an `i32`; `ctx.arg(1)` as a pointer to `u32`, null or with the word that it
-- points to; `ctx.arg(3)` as a `u32`.
pub record LsmContext : Type 0 where
  pub cmd : ℤ
  pub attr : Option ℕ
  pub kernel : ℕ

-- `POLICY_MAP.get`
abbrev pub PolicyMap : Type 0
PolicyMap = PolicyKey → Option PolicyValue

-- `-1`
abbrev pub eperm : ℤ
eperm = negsuc 0

abbrev pub allow : ℤ
allow = pos 0

-- `cmd as u32`
abbrev pub as_u32 : ℤ → ℕ
as_u32 (pos n) = n
as_u32 (negsuc n) = 2 ^ 32 - 1 - n

-- The stub of the source: it always returns 0.
unfoldable pub get_current_userns_id : Result ℕ ℤ
get_current_userns_id = ok 0

-- The end of each hook: the bit is tested only below 32.
unfoldable pub check_bit : ℕ → ℕ → ℤ
check_bit bitmap bit = if ltb bit 32 && masks bitmap bit then allow else eperm

-- The middle of each hook: no entry, the two flags, and then the check on the entry.
unfoldable pub enforce : Option PolicyValue → (PolicyValue → ℤ) → ℤ
enforce none check = allow
enforce (some policy) check =
    if bit_and policy.flags policy_flag_deny_all != 0
    then eperm
    else if bit_and policy.flags policy_flag_allow_all != 0
    then allow
    else check policy

-- A hook, with the answer of `get_current_userns_id` as a parameter.
module _ (userns : Result ℕ ℤ) (policy_map : PolicyMap) (ctx : LsmContext) where
  unfoldable pub try_hook : (PolicyValue → ℤ) → Result ℤ ℤ
  unfolding enforce
  try_hook check =
      if ctx.kernel != 0
      then ok allow
      else userns >>= λ userns_id.
          ok (enforce (policy_map (record { userns_id = userns_id })) check)

  unfoldable pub try_bpf_rbac_bpf : Result ℤ ℤ
  unfolding try_hook check_bit
  try_bpf_rbac_bpf = try_hook λ policy. check_bit policy.allowed_cmds (as_u32 ctx.cmd)

  unfoldable pub try_bpf_rbac_prog_load : Result ℤ ℤ
  unfolding try_hook check_bit
  try_bpf_rbac_prog_load = try_hook λ policy. elim ctx.attr [
    | none ↦ eperm
    | some prog_type ↦ check_bit policy.allowed_prog_types prog_type
  ]

  unfoldable pub try_bpf_rbac_map_create : Result ℤ ℤ
  unfolding try_hook check_bit
  try_bpf_rbac_map_create = try_hook λ policy. elim ctx.attr [
    | none ↦ eperm
    | some map_type ↦ check_bit policy.allowed_map_types map_type
  ]

-- `match try_…(&ctx) { Ok(ret) => ret, Err(_) => -1 }`
abbrev pub fail_closed : Result ℤ ℤ → ℤ
fail_closed (ok ret) = ret
fail_closed (err _) = eperm

module _ (policy_map : PolicyMap) (ctx : LsmContext) where
  unfoldable pub bpf_rbac_bpf : ℤ
  unfolding try_bpf_rbac_bpf get_current_userns_id
  bpf_rbac_bpf = fail_closed (try_bpf_rbac_bpf get_current_userns_id policy_map ctx)

  unfoldable pub bpf_rbac_prog_load : ℤ
  unfolding try_bpf_rbac_prog_load get_current_userns_id
  bpf_rbac_prog_load = fail_closed (try_bpf_rbac_prog_load get_current_userns_id policy_map ctx)

  unfoldable pub bpf_rbac_map_create : ℤ
  unfolding try_bpf_rbac_map_create get_current_userns_id
  bpf_rbac_map_create = fail_closed (try_bpf_rbac_map_create get_current_userns_id policy_map ctx)
