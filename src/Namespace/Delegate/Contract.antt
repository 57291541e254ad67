-- ===== src/Namespace/Delegate/Contract.antt =====
-- The promises of `delegate_bpf_to_namespace` and `revoke_bpf_delegation` of src/namespace.rs.
use bpf_rbacd.Base.{ℕ, String, ◌≡◌, refl, sym, ap, ◌∙◌, arith, Result, ok, err}
use bpf_rbacd.Base.Effects.{Effect, relabel, with_context, relabel_state}
use bpf_rbacd.Namespace.Host.{Host, Namespaces, clone_newuser, clone_newns}
use bpf_rbacd.Base.Format.{to_string}
use bpf_rbacd.Namespace.Options.{DelegationOpts, to_mount_data}
use bpf_rbacd.Namespace.Delegate.{
  return_home, TargetNamespace, NsFds, open_fds, enter, leave, inside, mount_flags,
  delegate_bpf_to_namespace, revoke_bpf_delegation,
}
use bpf_rbacd.Namespace.Delegate.Moves.{Opened, open_fds-Saved}
use bpf_rbacd.Namespace.Delegate.Inside.{enter_lem, not_opened, not_entered, entered, ways}

module _ (host : Host) (laws : Namespaces host) where
  position_of :
      (r r' : Result (Unit {0}) String × host.State) → r ≡ r' → laws.current r.1 ≡ laws.current r'.1
  position_of r r' same = ap (λ (x : Result (Unit {0}) String × host.State). laws.current x.1) same

  relabel_done :
      (message : String) (r : Result (Unit {0}) String × host.State)
      → (relabel message r).0 ≡ ok tt
      → r ≡ (ok tt, r.1)
  relabel_done message (ok _, t) h = refl
  relabel_done message (err e, t) h = ground arith

  -- The run with this call: from the opened files into the target, the call, and the way back.
  pub record InTarget (target : TargetNamespace) (act : Effect host.State (Unit {0}))
      (s s' : host.State) : Type 0 where
    pub fds : NsFds host.File
    pub saved : host.State
    pub before : host.State
    pub after : host.State
    pub opened : open_fds host target s ≡ (ok fds, saved)
    pub reached : enter host fds saved ≡ (ok tt, before)
    pub user_file : Opened host laws (to_string target.pid) "user" fds.target_userns
    pub mnt_file : Opened host laws (to_string target.pid) "mnt" fds.target_mntns
    pub position : laws.current before ≡ (laws.inode fds.target_userns, laws.inode fds.target_mntns)
    pub done : act before ≡ (ok tt, after)
    pub left : s' ≡ return_home host fds after

  err_differs :
      (e : String) (t t' : host.State)
      → ¬ Path (Result (Unit {0}) String × host.State) (err e, t) (ok tt, t')
  err_differs e t t' h = ground arith

  inside-InTarget :
      (target : TargetNamespace) (message : String) (act : Effect host.State (Unit {0}))
      (s s' : host.State)
      → inside host target (with_context message act) s ≡ (ok tt, s')
      → InTarget target act s s'
  unfolding leave
  inside-InTarget target message act s s' h =
      elim (ways host laws target (with_context message act) s) [
        | not_opened e t failed ends ↦ absurd (err_differs e t s' (sym ends ∙ h))
        | not_entered fds t u e opened saved failed ends ↦
            absurd (err_differs e u s' (sym ends ∙ h))
        | entered fds t u opened saved done ends ↦ record {
          fds = fds;
          saved = t;
          before = u;
          after = (act u).1;
          opened = opened;
          reached = done;
          user_file = saved.other_user;
          mnt_file = saved.other_mnt;
          position = enter_lem host laws fds t u done;
          done =
              relabel_done message (act u)
                (ap (λ (r : Result (Unit {0}) String × host.State). r.0) (sym ends ∙ h));
          left =
              ap (λ (r : Result (Unit {0}) String × host.State). r.1) (sym h ∙ ends)
              ∙ ap (λ (v : host.State). return_home host fds v) (relabel_state message (act u));
        }
      ]

  -- A delegation that ends well has made its mount() call, and the call has ended well, with the
  -- thread in the target's user and mount namespaces, those of the files under /proc/<pid>/ns; its
  -- last state is that after the two calls to return.
  pub delegate_mounts_inside :
      (target : TargetNamespace) (mount_path : String) (opts : DelegationOpts) (s s' : host.State)
      → delegate_bpf_to_namespace host target mount_path opts s ≡ (ok tt, s')
      → InTarget target
          (host.mount "bpf" mount_path "bpf" (mount_flags host) (to_mount_data opts))
          s
          s'
  unfolding delegate_bpf_to_namespace
  delegate_mounts_inside target mount_path opts s s' h = inside-InTarget target _ _ s s' h

  enter_stuck :
      (fds : NsFds host.File) (s s₁ s₂ : host.State) (e : String)
      → host.setns fds.target_userns clone_newuser s ≡ (ok tt, s₁)
      → host.setns fds.target_mntns clone_newns s₁ ≡ (err e, s₂)
      → enter host fds s ≡ (err "Failed to enter target mount namespace", s₂)
  unfolding enter
  enter_stuck fds s s₁ s₂ e first second = rw (first, second) refl

  -- If the second setns() fails, both functions return its error with the thread still in the
  -- target's user namespace.
  pub left_in_target :
      (target : TargetNamespace) (mount_path : String) (opts : DelegationOpts)
      (fds : NsFds host.File) (s s₁ s₂ s₃ : host.State) (e : String)
      → open_fds host target s ≡ (ok fds, s₁)
      → host.setns fds.target_userns clone_newuser s₁ ≡ (ok tt, s₂)
      → host.setns fds.target_mntns clone_newns s₂ ≡ (err e, s₃)
      → (delegate_bpf_to_namespace host target mount_path opts s
          ≡ (err "Failed to enter target mount namespace", s₃))
        × (revoke_bpf_delegation host target mount_path s
            ≡ (err "Failed to enter target mount namespace", s₃))
        × (laws.current s₃ ≡ (laws.inode fds.target_userns, (laws.current s).1))
  unfolding delegate_bpf_to_namespace revoke_bpf_delegation inside
  left_in_target target mount_path opts fds s s₁ s₂ s₃ e opened first second =
      let stuck = enter_stuck fds s₁ s₂ s₃ e first second in
      let saved = open_fds-Saved host laws target fds s s₁ opened in
      (
        rw (opened, inside, stuck) refl,
        rw (opened, inside, stuck) refl,
        laws.setns_fails fds.target_mntns clone_newns e s₂ s₃ second
            ∙ laws.setns_user fds.target_userns s₁ s₂ first
            ∙ ap (λ (c : ℕ × ℕ). (laws.inode fds.target_userns, c.1)) saved.stayed,
      )
