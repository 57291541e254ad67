-- ===== src/Namespace/Delegate/Tables/Undo.antt =====
-- `revoke_bpf_delegation` after `delegate_bpf_to_namespace`, both of src/namespace.rs.
use bpf_rbacd.Base.{
  ℕ, String, List, ◌∷◌, ◌==◌, nat_eq, string_eq, ◌≡◌, refl, sym, ap, ◌∙◌, arith, inl, inr, Result,
  ok, Bool-cases,
}
use bpf_rbacd.Base.Format.{to_string}
use bpf_rbacd.Namespace.Host.{Host, Namespaces}
use bpf_rbacd.Namespace.Options.{DelegationOpts}
use bpf_rbacd.Namespace.Delegate.{TargetNamespace, delegate_bpf_to_namespace, revoke_bpf_delegation}
use bpf_rbacd.Namespace.Delegate.Moves.{Opened}
use bpf_rbacd.Namespace.Delegate.Tables.{
  Mounted, without, MountTables, bpffs, Outcome, done, failed, mounts_bpffs, unmounts,
}
use bpf_rbacd.Namespace.Delegate.Tables.Ends.{tables_of, delegation-Outcome}

module _ (host : Host) (laws : Namespaces host) (tables : MountTables host laws) where
  -- The files of the process's mount namespace all stand for one namespace.
  abbrev pub OneMountNamespace : TargetNamespace → Type 0
  OneMountNamespace target =
      (f f' : host.File)
      → Opened host laws (to_string target.pid) "mnt" f
      → Opened host laws (to_string target.pid) "mnt" f'
      → laws.inode f ≡ laws.inode f'

  without_top :
      (path : String) (opts : DelegationOpts) (owner : ℕ) (ms : List Mounted)
      → without path (bpffs host path opts owner ∷ ms) ≡ ms
  unfolding without
  without_top path opts owner ms = ground arith

  undone :
      (path : String) (opts : DelegationOpts) (user user' mnt n : ℕ) (t : List Mounted)
      → unmounts path (user', mnt) n (mounts_bpffs host path opts (user, mnt) n t) ≡ t
  undone path opts user user' mnt n t = elim (Bool-cases (n == mnt)) [
    | inl here ↦ rw here (without_top path opts user t)
    | inr elsewhere ↦ rw elsewhere refl
  ]

  undoes :
      (target : TargetNamespace) (path : String) (opts : DelegationOpts) (s s₁ t₁ s₂ : host.State)
      (r r' : Result (Unit {0}) String × host.State)
      → OneMountNamespace target
      → ((n : ℕ) → tables.table t₁ n ≡ tables.table s₁ n)
      → r ≡ (ok tt, s₁)
      → r' ≡ (ok tt, s₂)
      → Outcome host laws tables target (mounts_bpffs host path opts) s r
      → Outcome host laws tables target (unmounts path) t₁ r'
      → (n : ℕ) → tables.table s₂ n ≡ tables.table s n
  undoes target path opts s s₁ t₁ s₂ r r' one found e e' (failed m h _) o' n = absurd (cc (e, h))
  undoes target path opts s s₁ t₁ s₂ r r' one found e e' (done u m _ _ _ _) (failed m' h _) n =
      absurd (cc (e', h))
  undoes target path opts s s₁ t₁ s₂ r r' one found e e' (done u m ou om _ added)
        (done u' m' ou' om' _ taken) n =
      let user = laws.inode u in
      let user' = laws.inode u' in
      sym (ap (λ (f : ℕ → List Mounted). f n) (tables_of host laws tables r' (ok tt, s₂) e'))
      ∙ taken n
      ∙ ap (λ (t : List Mounted). unmounts path (user', laws.inode m') n t) (found n)
      ∙ ap (λ (k : ℕ). unmounts path (user', k) n (tables.table s₁ n)) (one m' m om' om)
      ∙ ap (λ (t : List Mounted). unmounts path (user', laws.inode m) n t)
          (sym (ap (λ (f : ℕ → List Mounted). f n) (tables_of host laws tables r (ok tt, s₁) e))
            ∙ added n)
      ∙ undone path opts user user' (laws.inode m) n (tables.table s n)

  -- A revocation, by any thread, that finds the mounts as a delegation has left them, if both end
  -- well and the process has stayed in its mount namespace, leaves the mounts of every mount
  -- namespace as they were before the delegation.
  pub revoke-delegate :
      (target : TargetNamespace) (mount_path : String) (opts : DelegationOpts)
      (s s₁ t₁ s₂ : host.State)
      → OneMountNamespace target
      → delegate_bpf_to_namespace host target mount_path opts s ≡ (ok tt, s₁)
      → ((n : ℕ) → tables.table t₁ n ≡ tables.table s₁ n)
      → revoke_bpf_delegation host target mount_path t₁ ≡ (ok tt, s₂)
      → (n : ℕ) → tables.table s₂ n ≡ tables.table s n
  revoke-delegate target path opts s s₁ t₁ s₂ one delegated found revoked =
      undoes target path opts s s₁ t₁ s₂ _ _ one found delegated revoked
        (delegation-Outcome host laws tables target path opts s).0
        (delegation-Outcome host laws tables target path opts t₁).1
