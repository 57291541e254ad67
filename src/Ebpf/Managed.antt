-- ===== src/Ebpf/Managed.antt =====
-- The hooks of bpf-rbacd-ebpf/src/main.rs on a call from a managed namespace.
use bpf_rbacd.Base.{
  ℕ, ◌<◌, ◌≤◌, Bool, true, false, some, ◌≡◌, ◌∙◌, arith, nat_eq, if◌then◌else◌, Result, ok,
}
use bpf_rbacd.Base.Bits.{masks-test_bit, test_bit}
use bpf_rbacd.Base.Int.{ℤ, pos}
use bpf_rbacd.Common.{PolicyValue}
use bpf_rbacd.Ebpf.{
  LsmContext, PolicyMap, allow, eperm, as_u32, check_bit, try_hook, try_bpf_rbac_bpf,
  try_bpf_rbac_prog_load, try_bpf_rbac_map_create, fail_closed,
}
use bpf_rbacd.Ebpf.Verdict.{enforce_flags}

-- The answer that a test stands for.
abbrev pub verdict : Bool → ℤ
verdict true = allow
verdict false = eperm

check_bit-verdict : (bitmap k : ℕ) → k < 32 → check_bit bitmap k ≡ verdict (test_bit bitmap k)
unfolding check_bit
check_bit-verdict bitmap k h = ground (arith, masks-test_bit bitmap k h)

-- A call from a process whose namespace has an entry.
pub record IsManaged (userns : Result ℕ ℤ) (policy_map : PolicyMap) (ctx : LsmContext)
    (entry : PolicyValue) : Type 0 where
  pub id : ℕ
  pub from_user : ctx.kernel ≡ 0
  pub identified : userns ≡ ok id
  pub listed : policy_map (record { userns_id = id }) ≡ some entry

module _ (userns : Result ℕ ℤ) (policy_map : PolicyMap) (ctx : LsmContext) (entry : PolicyValue)
    (managed : IsManaged userns policy_map ctx entry) where
  try_hook-managed :
      (check : PolicyValue → ℤ)
      → fail_closed (try_hook userns policy_map ctx check) ≡ (
          if test_bit entry.flags 1
          then eperm
          else if test_bit entry.flags 0
          then allow
          else check entry)
  unfolding try_hook nat_eq
  try_hook-managed check =
      rw (managed.from_user, managed.identified, managed.listed) (enforce_flags entry check)

  -- A command of 32 or more is denied for every entry without the flag that allows all, also for
  -- one whose bitmaps have every bit set.
  pub try_bpf_rbac_bpf_high :
      test_bit entry.flags 0 ≡ false
      → 32 ≤ as_u32 ctx.cmd
      → fail_closed (try_bpf_rbac_bpf userns policy_map ctx) ≡ eperm
  unfolding try_bpf_rbac_bpf
  try_bpf_rbac_bpf_high no_trust high = try_hook-managed _ ∙ ground arith

  -- With no flag set, the hooks answer by the digit of the entry's bitmap.
  module _ (no_deny : test_bit entry.flags 1 ≡ false) (no_trust : test_bit entry.flags 0 ≡ false)
      (k : ℕ) (small : k < 32) where
    pub try_bpf_rbac_bpf-managed :
        ctx.cmd ≡ pos k
        → fail_closed (try_bpf_rbac_bpf userns policy_map ctx)
          ≡ verdict (test_bit entry.allowed_cmds k)
    unfolding try_bpf_rbac_bpf
    try_bpf_rbac_bpf-managed e =
        try_hook-managed _
        ∙ rw (no_deny, no_trust, e) (check_bit-verdict entry.allowed_cmds k small)

    pub try_bpf_rbac_prog_load-managed :
        ctx.attr ≡ some k
        → fail_closed (try_bpf_rbac_prog_load userns policy_map ctx)
          ≡ verdict (test_bit entry.allowed_prog_types k)
    unfolding try_bpf_rbac_prog_load
    try_bpf_rbac_prog_load-managed e =
        try_hook-managed _
        ∙ rw (no_deny, no_trust, e) (check_bit-verdict entry.allowed_prog_types k small)

    pub try_bpf_rbac_map_create-managed :
        ctx.attr ≡ some k
        → fail_closed (try_bpf_rbac_map_create userns policy_map ctx)
          ≡ verdict (test_bit entry.allowed_map_types k)
    unfolding try_bpf_rbac_map_create
    try_bpf_rbac_map_create-managed e =
        try_hook-managed _
        ∙ rw (no_deny, no_trust, e) (check_bit-verdict entry.allowed_map_types k small)
