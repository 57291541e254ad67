-- ===== src/Namespace/Delegate/Tables/Ends.antt =====
-- How the functions of src/namespace.rs end, and what the tables of mounts are then.
use bpf_rbacd.Base.{
  ℕ, String, List, nat_eq, string_eq, ◌≡◌, sym, ap, ◌∙◌, inl, inr, Result, ok, err,
}
use bpf_rbacd.Base.Effects.{Effect, with_context, relabel, outcome-cases}
use bpf_rbacd.Namespace.Host.{Host, Namespaces, clone_newuser, clone_newns}
use bpf_rbacd.Namespace.Options.{DelegationOpts, to_mount_data}
use bpf_rbacd.Namespace.Delegate.{
  TargetNamespace, NsFds, open_fds, enter, return_home, leave, inside, mount_flags,
  delegate_bpf_to_namespace, revoke_bpf_delegation,
}
use bpf_rbacd.Namespace.Delegate.Moves.{
  Saved, Stays, chain-Stays, with_context-Stays, open_fds-Stays,
}
use bpf_rbacd.Namespace.Delegate.Inside.{enter_lem, not_opened, not_entered, entered, ways}
use bpf_rbacd.Namespace.Delegate.Tables.{
  Mounted, MountTables, Change, Outcome, done, failed, mounts_bpffs, unmounts,
}

module _ (host : Host) (laws : Namespaces host) (tables : MountTables host laws) where
  enter-Stays : (fds : NsFds host.File) → Stays host tables.table (enter host fds)
  unfolding enter
  enter-Stays fds =
      chain-Stays host tables.table
        (with_context "Failed to enter target user namespace"
          (host.setns fds.target_userns clone_newuser))
        (λ _.
          with_context "Failed to enter target mount namespace"
            (host.setns fds.target_mntns clone_newns))
        (with_context-Stays host tables.table _ _
          (tables.setns_keeps fds.target_userns clone_newuser))
        (λ _.
          with_context-Stays host tables.table _ _
            (tables.setns_keeps fds.target_mntns clone_newns))

  return_home_stays :
      (fds : NsFds host.File) (s : host.State)
      → tables.table (return_home host fds s) ≡ tables.table s
  unfolding return_home
  return_home_stays fds s =
      tables.setns_keeps fds.self_mntns clone_newns (host.setns fds.self_userns clone_newuser s).1
      ∙ tables.setns_keeps fds.self_userns clone_newuser s

  pub tables_of {κ} :
      {A : Type κ} (r r' : Result A String × host.State)
      → r ≡ r'
      → tables.table r.1 ≡ tables.table r'.1
  tables_of r r' same = ap (λ (x : Result _ String × host.State). tables.table x.1) same

  result_of : (r r' : Result (Unit {0}) String × host.State) → r ≡ r' → r.0 ≡ r'.0
  result_of r r' same = ap (λ (x : Result (Unit {0}) String × host.State). x.0) same

  open_fds_tables :
      (target : TargetNamespace) (s : host.State) (r : Result (NsFds host.File) String × host.State)
      → open_fds host target s ≡ r
      → tables.table r.1 ≡ tables.table s
  open_fds_tables target s r opened =
      sym (tables_of (open_fds host target s) r opened)
      ∙ open_fds-Stays host tables.table tables.open_keeps target s

  enter_tables :
      (fds : NsFds host.File) (s : host.State) (r : Result (Unit {0}) String × host.State)
      → enter host fds s ≡ r
      → tables.table r.1 ≡ tables.table s
  enter_tables fds s r reached = sym (tables_of (enter host fds s) r reached) ∙ enter-Stays fds s

  leave_result :
      (fds : NsFds host.File) (message : String) (call : Effect host.State (Unit {0}))
      (u : host.State) (r : Result (Unit {0}) String × host.State)
      → call u ≡ r
      → leave host fds (with_context message call) u
        ≡ ((relabel message r).0, return_home host fds (relabel message r).1)
  unfolding leave
  leave_result fds message call u r called =
      ap
        (λ (x : Result (Unit {0}) String × host.State).
          ((relabel message x).0, return_home host fds (relabel message x).1))
        called

  module _ (target : TargetNamespace) (message : String) (call : Effect host.State (Unit {0}))
      (change : Change)
      (works : (u u' : host.State)
        → call u ≡ (ok tt, u')
        → (n : ℕ) → tables.table u' n ≡ change (laws.current u) n (tables.table u n))
      (fails : (e : String) (u u' : host.State)
        → call u ≡ (err e, u')
        → tables.table u' ≡ tables.table u) where
    -- The call, from the target's namespaces on.
    leave-Outcome :
        (fds : NsFds host.File) (s t u : host.State)
        → Saved host laws target fds s t
        → enter host fds t ≡ (ok tt, u)
        → tables.table t ≡ tables.table s
        → (r : Result (Unit {0}) String × host.State)
        → r ≡ leave host fds (with_context message call) u
        → Outcome host laws tables target change s r
    leave-Outcome fds s t u saved reached kept r ends =
        let before = enter_tables fds t (ok tt, u) reached ∙ kept in
        elim (outcome-cases (call u)) [
          | inl (_, v, called) ↦
              let result = ends ∙ leave_result fds message call u (ok tt, v) called in
              done fds.target_userns fds.target_mntns saved.other_user saved.other_mnt
                (result_of r (ok tt, return_home host fds v) result)
                (λ n.
                  ap (λ (f : ℕ → List Mounted). f n)
                    (tables_of r (ok tt, return_home host fds v) result ∙ return_home_stays fds v)
                  ∙ works u v called n
                  ∙ ap (λ (c : ℕ × ℕ). change c n (tables.table u n))
                      (enter_lem host laws fds t u reached)
                  ∙ ap
                      (λ (f : ℕ → List Mounted).
                        change (laws.inode fds.target_userns, laws.inode fds.target_mntns) n (f n))
                      before)
          | inr (e, v, broken) ↦
              let result = ends ∙ leave_result fds message call u (err e, v) broken in
              failed message (result_of r (err message, return_home host fds v) result) (
                tables_of r (err message, return_home host fds v) result
                ∙ return_home_stays fds v
                ∙ fails e u v broken
                ∙ before)
        ]

    inside-Outcome :
        (s : host.State)
        → Outcome host laws tables target change s
            (inside host target (with_context message call) s)
    inside-Outcome s = elim (ways host laws target (with_context message call) s) [
      | not_opened e t opened ends ↦
          failed e (result_of _ (err e, t) ends)
            (tables_of _ (err e, t) ends ∙ open_fds_tables target s (err e, t) opened)
      | not_entered fds t u e opened saved stuck ends ↦ failed e (result_of _ (err e, u) ends) (
          tables_of _ (err e, u) ends
          ∙ enter_tables fds t (err e, u) stuck
          ∙ open_fds_tables target s (ok fds, t) opened)
      | entered fds t u opened saved reached ends ↦
          leave-Outcome fds s t u saved reached (open_fds_tables target s (ok fds, t) opened)
            (inside host target (with_context message call) s) ends
    ]

  -- A delegation that ends well has put one bpffs, with the mount data of the options and owned by the
  -- target's user namespace, on top of the mounts of the target's mount namespace, and a revocation that
  -- ends well has taken the topmost mount at the path from them; the namespaces are those of the files
  -- under /proc/<pid>/ns. No other table of mounts changes, and none does if they fail.
  pub delegation-Outcome :
      (target : TargetNamespace) (mount_path : String) (opts : DelegationOpts) (s : host.State)
      → Outcome host laws tables target
          (mounts_bpffs host mount_path opts)
          s
          (delegate_bpf_to_namespace host target mount_path opts s)
        × Outcome host laws tables target
            (unmounts mount_path)
            s
            (revoke_bpf_delegation host target mount_path s)
  unfolding delegate_bpf_to_namespace revoke_bpf_delegation
  delegation-Outcome target path opts s = (
    inside-Outcome target "Failed to mount bpffs in target namespace"
        (host.mount "bpf" path "bpf" (mount_flags host) (to_mount_data opts))
        (mounts_bpffs host path opts)
        (tables.mount_adds "bpf" path "bpf" (mount_flags host) (to_mount_data opts))
        (tables.mount_fails "bpf" path "bpf" (mount_flags host) (to_mount_data opts)) s,
    inside-Outcome target "Failed to unmount bpffs" (host.umount path) (unmounts path)
        (tables.umount_takes path) (tables.umount_fails path) s,
  )
