-- ===== src/Ebpf/Verdict.antt =====
-- When the hooks of bpf-rbacd-ebpf/src/main.rs allow an operation, for any answer of
-- `get_current_userns_id`.
use bpf_rbacd.Base.{
  ℕ, ◌<◌, true, false, Option, none, some, ◌≡◌, ◌≢◌, ◌↔◌, inl, inr, refl, ◌∙◌, arith, ◌!=◌, nat_eq,
  if◌then◌else◌, Result, ok, err, ◌>>=◌, Bool-cases, Option-cases,
}
use bpf_rbacd.Base.Bits.{masks-test_bit, test_bit}
use bpf_rbacd.Base.Int.{ℤ}
use bpf_rbacd.Common.{PolicyValue}
use bpf_rbacd.Ebpf.{
  LsmContext, PolicyMap, allow, eperm, as_u32, check_bit, enforce, try_hook, try_bpf_rbac_bpf,
  try_bpf_rbac_prog_load, try_bpf_rbac_map_create, fail_closed,
}

-- The four ways for an operation to pass. `Grants` is what the hook asks of the bitmaps. Flag bit 1
-- is `POLICY_FLAG_DENY_ALL` and flag bit 0 is `POLICY_FLAG_ALLOW_ALL`.
pub data Passes (kernel : ℕ) (userns : Result ℕ ℤ) (policy_map : PolicyMap)
    (Grants : PolicyValue → Type 0) : Type 0 where
  from_kernel : kernel ≢ 0 → Passes kernel userns policy_map Grants
  unmanaged :
      (id : ℕ)
      → userns ≡ ok id
      → policy_map (record { userns_id = id }) ≡ none
      → Passes kernel userns policy_map Grants
  trusted :
      (id : ℕ) (policy : PolicyValue)
      → userns ≡ ok id
      → policy_map (record { userns_id = id }) ≡ some policy
      → test_bit policy.flags 1 ≡ false
      → test_bit policy.flags 0 ≡ true
      → Passes kernel userns policy_map Grants
  granted :
      (id : ℕ) (policy : PolicyValue)
      → userns ≡ ok id
      → policy_map (record { userns_id = id }) ≡ some policy
      → test_bit policy.flags 1 ≡ false
      → Grants policy
      → Passes kernel userns policy_map Grants

-- Bit k of the bitmap is set; only bits below 32 exist.
abbrev pub HasBit : ℕ → ℕ → Type 0
HasBit bitmap k = (k < 32) × (test_bit bitmap k ≡ true)

abbrev pub HasWordBit : ℕ → Option ℕ → Type 0
HasWordBit bitmap none = ⊥
HasWordBit bitmap (some k) = HasBit bitmap k

check_bit_iff : (bitmap k : ℕ) → (check_bit bitmap k ≡ allow) ↔ HasBit bitmap k
unfolding check_bit
check_bit_iff bitmap k =
    (λ h. ground (arith, masks-test_bit bitmap k), λ h. ground (arith, masks-test_bit bitmap k))

module _ (policy : PolicyValue) (check : PolicyValue → ℤ) where
  pub enforce_flags : enforce (some policy) check ≡ (
      if test_bit policy.flags 1
      then eperm
      else if test_bit policy.flags 0
      then allow
      else check policy)
  unfolding enforce
  enforce_flags =
      rw (masks-test_bit policy.flags 1 (omega arith), masks-test_bit policy.flags 0 (omega arith))

module _ (userns : Result ℕ ℤ) (policy_map : PolicyMap) (ctx : LsmContext) (check : PolicyValue → ℤ)
    (Grants : PolicyValue → Type 0)
    (decides : (policy : PolicyValue) → (check policy ≡ allow) ↔ Grants policy) where
  enforce-Passes :
      (id : ℕ)
      → userns ≡ ok id
      → enforce (policy_map (record { userns_id = id })) check ≡ allow
      → Passes ctx.kernel userns policy_map Grants
  enforce-Passes id e h = elim (Option-cases (policy_map (record { userns_id = id }))) [
    | inl missing ↦ unmanaged id e missing
    | inr (policy, found) ↦
        let h' = rw (found, enforce_flags policy check) at h in
        elim (Bool-cases (test_bit policy.flags 1)) [
          | inl deny ↦ cc (rw deny at h')
          | inr no_deny ↦ elim (Bool-cases (test_bit policy.flags 0)) [
            | inl trust ↦ trusted id policy e found no_deny trust
            | inr no_trust ↦
                granted id policy e found no_deny
                  ((decides policy).0 (rw (no_deny, no_trust) at h'))
          ]
        ]
  ]

  hook-Passes :
      fail_closed (try_hook userns policy_map ctx check) ≡ allow
      → Passes ctx.kernel userns policy_map Grants
  unfolding try_hook
  hook-Passes h = elim (Bool-cases (ctx.kernel != 0)) [
    | inl in_kernel ↦ from_kernel (ground arith)
    | inr user ↦ answer userns refl (rw (user, try_hook) at h)
  ]
    where
      answer :
          (u : Result ℕ ℤ)
          → userns ≡ u
          → fail_closed (u >>= λ id. ok (enforce (policy_map (record { userns_id = id })) check))
            ≡ allow
          → Passes ctx.kernel userns policy_map Grants
      answer (ok id) e h = enforce-Passes id e h
      answer (err code) e h = cc

  hook_of_enforce :
      (id : ℕ)
      → userns ≡ ok id
      → enforce (policy_map (record { userns_id = id })) check ≡ allow
      → fail_closed (try_hook userns policy_map ctx check) ≡ allow
  unfolding try_hook
  hook_of_enforce id e h = elim (Bool-cases (ctx.kernel != 0)) [
    | inl in_kernel ↦ rw (in_kernel, try_hook)
    | inr user ↦ rw (user, try_hook, e) h
  ]

  hook_of_Passes :
      Passes ctx.kernel userns policy_map Grants
      → fail_closed (try_hook userns policy_map ctx check) ≡ allow
  unfolding try_hook
  hook_of_Passes (from_kernel k) = ground arith
  hook_of_Passes (unmanaged id e missing) = hook_of_enforce id e (rw (missing, enforce))
  hook_of_Passes (trusted id policy e found no_deny trust) =
      hook_of_enforce id e (rw found (enforce_flags policy check ∙ rw (no_deny, trust)))
  hook_of_Passes (granted id policy e found no_deny g) =
      hook_of_enforce id e
        (rw found (enforce_flags policy check ∙ ground (arith, (decides policy).1 g)))

  hook_iff :
      (fail_closed (try_hook userns policy_map ctx check) ≡ allow)
      ↔ Passes ctx.kernel userns policy_map Grants
  hook_iff = (hook-Passes, hook_of_Passes)

word_iff :
    (attr : Option ℕ) (bitmap : ℕ)
    → ((elim attr [ none ↦ eperm | some k ↦ check_bit bitmap k ]) ≡ allow) ↔ HasWordBit bitmap attr
word_iff none bitmap = (λ h. cc, λ h. absurd h)
word_iff (some k) bitmap = check_bit_iff bitmap k

module _ (userns : Result ℕ ℤ) (policy_map : PolicyMap) (ctx : LsmContext) where
  -- The hook on every bpf() call allows exactly the four ways of `Passes`, the last for a command
  -- below 32 whose bit is set in the entry's commands.
  pub try_bpf_rbac_bpf_iff :
      (fail_closed (try_bpf_rbac_bpf userns policy_map ctx) ≡ allow)
      ↔ Passes ctx.kernel userns policy_map (λ policy. HasBit policy.allowed_cmds (as_u32 ctx.cmd))
  unfolding try_bpf_rbac_bpf
  try_bpf_rbac_bpf_iff =
      hook_iff userns policy_map ctx _ _
        (λ policy. check_bit_iff policy.allowed_cmds (as_u32 ctx.cmd))

  pub try_bpf_rbac_prog_load_iff :
      (fail_closed (try_bpf_rbac_prog_load userns policy_map ctx) ≡ allow)
      ↔ Passes ctx.kernel userns policy_map
          (λ policy. HasWordBit policy.allowed_prog_types ctx.attr)
  unfolding try_bpf_rbac_prog_load
  try_bpf_rbac_prog_load_iff =
      hook_iff userns policy_map ctx _ _ (λ policy. word_iff ctx.attr policy.allowed_prog_types)

  pub try_bpf_rbac_map_create_iff :
      (fail_closed (try_bpf_rbac_map_create userns policy_map ctx) ≡ allow)
      ↔ Passes ctx.kernel userns policy_map (λ policy. HasWordBit policy.allowed_map_types ctx.attr)
  unfolding try_bpf_rbac_map_create
  try_bpf_rbac_map_create_iff =
      hook_iff userns policy_map ctx _ _ (λ policy. word_iff ctx.attr policy.allowed_map_types)

  -- The hooks on a program load and on a map creation allow exactly in those ways, with the first
  -- word of the attributes as the type and the entry's types of that kind; a null pointer has no
  -- bit.
  pub attr_hooks_iff :
      ((fail_closed (try_bpf_rbac_prog_load userns policy_map ctx) ≡ allow)
        ↔ Passes ctx.kernel userns policy_map
            (λ policy. HasWordBit policy.allowed_prog_types ctx.attr))
      × ((fail_closed (try_bpf_rbac_map_create userns policy_map ctx) ≡ allow)
          ↔ Passes ctx.kernel userns policy_map
              (λ policy. HasWordBit policy.allowed_map_types ctx.attr))
  attr_hooks_iff = (try_bpf_rbac_prog_load_iff, try_bpf_rbac_map_create_iff)
