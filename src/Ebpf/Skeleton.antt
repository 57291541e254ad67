-- ===== src/Ebpf/Skeleton.antt =====
-- The hooks of bpf-rbacd-ebpf/src/main.rs as they stand, over the stub `get_current_userns_id`.
use bpf_rbacd.Base.{◌≡◌, nat_eq, refl}
use bpf_rbacd.Ebpf.{LsmContext, PolicyMap, bpf_rbac_bpf, bpf_rbac_prog_load, bpf_rbac_map_create}

-- The hooks look at no entry but the one of namespace 0: two policy maps with the same entry there
-- have the same answer from each of the three hooks on every call, whatever they hold for all other
-- namespaces.
pub hooks_same :
    (policy_map policy_map' : PolicyMap) (ctx : LsmContext)
    → policy_map (record { userns_id = 0 }) ≡ policy_map' (record { userns_id = 0 })
    → (bpf_rbac_bpf policy_map ctx ≡ bpf_rbac_bpf policy_map' ctx)
      × (bpf_rbac_prog_load policy_map ctx ≡ bpf_rbac_prog_load policy_map' ctx)
      × (bpf_rbac_map_create policy_map ctx ≡ bpf_rbac_map_create policy_map' ctx)
unfolding bpf_rbac_bpf bpf_rbac_prog_load bpf_rbac_map_create
hooks_same policy_map policy_map' ctx h = (rw h refl, rw h refl, rw h refl)
