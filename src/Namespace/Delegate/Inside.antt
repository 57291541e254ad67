-- ===== src/Namespace/Delegate/Inside.antt =====
-- What the call of `delegate_bpf_to_namespace` and `revoke_bpf_delegation` finds and leaves.
use bpf_rbacd.Base.{ℕ, String, ◌≡◌, refl, ap, ◌∙◌, inl, inr, ok, err}
use bpf_rbacd.Base.Effects.{Effect, ok_of_chain, outcome-cases, with_context, relabel-ok}
use bpf_rbacd.Namespace.Host.{Host, Namespaces, clone_newuser, clone_newns}
use bpf_rbacd.Namespace.Delegate.{TargetNamespace, NsFds, open_fds, enter, leave, inside}
use bpf_rbacd.Namespace.Delegate.Moves.{Saved, open_fds-Saved}

module _ (host : Host) (laws : Namespaces host) where
  pub enter_lem :
      (fds : NsFds host.File) (s s' : host.State)
      → enter host fds s ≡ (ok tt, s')
      → laws.current s' ≡ (laws.inode fds.target_userns, laws.inode fds.target_mntns)
  unfolding enter
  enter_lem fds s s' h =
      let (_, s₁, e₁, h₁) =
        ok_of_chain
          (with_context "Failed to enter target user namespace"
            (host.setns fds.target_userns clone_newuser))
          (λ _.
            with_context "Failed to enter target mount namespace"
              (host.setns fds.target_mntns clone_newns))
          tt s s' h in
      laws.setns_mnt fds.target_mntns s₁ s' (relabel-ok _ _ tt s' h₁)
      ∙ ap (λ (c : ℕ × ℕ). (c.0, laws.inode fds.target_mntns))
          (laws.setns_user fds.target_userns s s₁ (relabel-ok _ _ tt s₁ e₁))

  -- The three ways through `inside`.
  pub data Way (target : TargetNamespace) (act : Effect host.State (Unit {0})) (s : host.State)
      : Type 0 where
    not_opened :
        (e : String) (t : host.State)
        → open_fds host target s ≡ (err e, t)
        → inside host target act s ≡ (err e, t)
        → Way target act s
    not_entered :
        (fds : NsFds host.File) (t u : host.State) (e : String)
        → open_fds host target s ≡ (ok fds, t)
        → Saved host laws target fds s t
        → enter host fds t ≡ (err e, u)
        → inside host target act s ≡ (err e, u)
        → Way target act s
    entered :
        (fds : NsFds host.File) (t u : host.State)
        → open_fds host target s ≡ (ok fds, t)
        → Saved host laws target fds s t
        → enter host fds t ≡ (ok tt, u)
        → inside host target act s ≡ leave host fds act u
        → Way target act s

  pub ways :
      (target : TargetNamespace) (act : Effect host.State (Unit {0})) (s : host.State)
      → Way target act s
  unfolding inside
  ways target act s = elim (outcome-cases (open_fds host target s)) [
    | inr (e, t, failed) ↦ not_opened e t failed (rw (failed, inside) refl)
    | inl (fds, t, opened) ↦ elim (outcome-cases (enter host fds t)) [
      | inr (e, u, failed) ↦
          not_entered fds t u e opened (open_fds-Saved host laws target fds s t opened) failed
            (rw (opened, inside, failed) refl)
      | inl (_, u, done) ↦
          entered fds t u opened (open_fds-Saved host laws target fds s t opened) done
            (rw (opened, inside, done) refl)
    ]
  ]
