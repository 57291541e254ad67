-- ===== src/Namespace/Delegate/Strands.antt =====
-- Where `delegate_bpf_to_namespace` and `revoke_bpf_delegation` of src/namespace.rs leave the
-- thread under the rule of setns(2) for user namespaces.
use bpf_rbacd.Base.{
  ℕ, String, Bool, true, false, ◌≡◌, sym, ap, ◌∙◌, arith, inl, inr, Result, ok, err,
}
use bpf_rbacd.Base.Effects.{Effect, ok_of_chain, outcome-cases, with_context, relabel-ok}
use bpf_rbacd.Namespace.Host.{Host, Namespaces, clone_newuser, clone_newns}
use bpf_rbacd.Base.Format.{to_string}
use bpf_rbacd.Namespace.Options.{DelegationOpts, to_mount_data}
use bpf_rbacd.Namespace.Delegate.{
  TargetNamespace, NsFds, enter, return_home, leave, inside, mount_flags, delegate_bpf_to_namespace,
}
use bpf_rbacd.Namespace.Delegate.Moves.{with_context-Stays, Stays, Opened}
use bpf_rbacd.Namespace.Delegate.Inside.{enter_lem, not_opened, not_entered, entered, ways}

-- setns(2): a thread needs CAP_SYS_ADMIN in the user namespace that it joins, so that it can join
-- only one that descends from its own. No two namespaces descend from each other.
pub record OnlyDescendants (host : Host) (laws : Namespaces host) : Type 0 where
  pub descends : ℕ → ℕ → Bool
  pub one_way : (a b : ℕ) → descends a b ≡ true → descends b a ≡ false
  pub joined :
      (f : host.File) (s s' : host.State)
      → host.setns f clone_newuser s ≡ (ok tt, s')
      → descends (laws.inode f) (laws.current s).0 ≡ true

module _ (host : Host) (laws : Namespaces host) (rule : OnlyDescendants host laws) where
  enter_descends :
      (fds : NsFds host.File) (s s' : host.State)
      → enter host fds s ≡ (ok tt, s')
      → rule.descends (laws.inode fds.target_userns) (laws.current s).0 ≡ true
  unfolding enter
  enter_descends fds s s' h =
      let (_, s₁, e₁, _) =
        ok_of_chain
          (with_context "Failed to enter target user namespace"
            (host.setns fds.target_userns clone_newuser))
          (λ _.
            with_context "Failed to enter target mount namespace"
              (host.setns fds.target_mntns clone_newns))
          tt s s' h in
      rule.joined fds.target_userns s s₁ (relabel-ok _ _ tt s₁ e₁)

  -- A setns() of a mount namespace leaves the user namespace, however it ends.
  mnt_keeps_user :
      (f : host.File) (s : host.State)
      → (laws.current (host.setns f clone_newns s).1).0 ≡ (laws.current s).0
  mnt_keeps_user f s = elim (outcome-cases (host.setns f clone_newns s)) [
    | inl (_, t, done) ↦
        ap (λ (r : Result (Unit {0}) String × host.State). (laws.current r.1).0) done
        ∙ ap (λ (c : ℕ × ℕ). c.0) (laws.setns_mnt f s t done)
    | inr (e, t, failed) ↦
        ap (λ (r : Result (Unit {0}) String × host.State). (laws.current r.1).0) failed
        ∙ ap (λ (c : ℕ × ℕ). c.0) (laws.setns_fails f clone_newns e s t failed)
  ]

  -- A setns() of a user namespace that does not descend from the thread's leaves the thread.
  user_refused :
      (f : host.File) (s : host.State)
      → rule.descends (laws.inode f) (laws.current s).0 ≡ false
      → laws.current (host.setns f clone_newuser s).1 ≡ laws.current s
  user_refused f s apart = elim (outcome-cases (host.setns f clone_newuser s)) [
    | inl (_, t, done) ↦ absurd (cc (rule.joined f s t done, apart))
    | inr (e, t, failed) ↦
        ap (λ (r : Result (Unit {0}) String × host.State). laws.current r.1) failed
        ∙ laws.setns_fails f clone_newuser e s t failed
  ]

  return_home_refused :
      (fds : NsFds host.File) (s : host.State)
      → rule.descends (laws.inode fds.self_userns) (laws.current s).0 ≡ false
      → (laws.current (return_home host fds s)).0 ≡ (laws.current s).0
  unfolding return_home
  return_home_refused fds s apart =
      mnt_keeps_user fds.self_mntns (host.setns fds.self_userns clone_newuser s).1
      ∙ ap (λ (c : ℕ × ℕ). c.0) (user_refused fds.self_userns s apart)

  -- The thread is in the user namespace of the target's file, which descends from the one it had.
  pub record Stranded (target : TargetNamespace) (s s' : host.State) : Type 0 where
    pub user_file : host.File
    pub opened : Opened host laws (to_string target.pid) "user" user_file
    pub descendant : rule.descends (laws.inode user_file) (laws.current s).0 ≡ true
    pub stranded : (laws.current s').0 ≡ laws.inode user_file

  err_differs :
      (e : String) (t t' : host.State)
      → ¬ Path (Result (Unit {0}) String × host.State) (err e, t) (ok tt, t')
  err_differs e t t' h = ground arith

  inside-Stranded :
      (target : TargetNamespace) (act : Effect host.State (Unit {0})) (s s' : host.State)
      → Stays host laws.current act
      → inside host target act s ≡ (ok tt, s')
      → Stranded target s s'
  unfolding leave
  inside-Stranded target act s s' stays h = elim (ways host laws target act s) [
    | not_opened e t failed ends ↦ absurd (err_differs e t s' (sym ends ∙ h))
    | not_entered fds t u e opened saved failed ends ↦ absurd (err_differs e u s' (sym ends ∙ h))
    | entered fds t u opened saved done ends ↦
        let there = stays u ∙ enter_lem host laws fds t u done in
        let down : rule.descends (laws.inode fds.target_userns) (laws.current s).0 ≡ true =
          ap (λ (c : ℕ × ℕ). rule.descends (laws.inode fds.target_userns) c.0) (sym saved.stayed)
          ∙ enter_descends fds t u done in
        let up : rule.descends (laws.inode fds.self_userns) (laws.current (act u).1).0 ≡ false =
          ap (λ (n : ℕ). rule.descends n (laws.current (act u).1).0) saved.own_user
          ∙ ap (λ (c : ℕ × ℕ). rule.descends (laws.current s).0 c.0) there
          ∙ rule.one_way _ _ down in
        record {
          user_file = fds.target_userns;
          opened = saved.other_user;
          descendant = down;
          stranded =
              ap (λ (r : Result (Unit {0}) String × host.State). (laws.current r.1).0)
                (sym h ∙ ends)
              ∙ return_home_refused fds (act u).1 up
              ∙ ap (λ (c : ℕ × ℕ). c.0) there;
        }
  ]

  -- Under that rule a delegation that ends well leaves the thread in the target's user namespace:
  -- the setns() that is to bring it back is refused, and its result is dropped.
  pub delegate-Stranded :
      (target : TargetNamespace) (mount_path : String) (opts : DelegationOpts) (s s' : host.State)
      → delegate_bpf_to_namespace host target mount_path opts s ≡ (ok tt, s')
      → Stranded target s s'
  unfolding delegate_bpf_to_namespace
  delegate-Stranded target mount_path opts s s' h =
      inside-Stranded target _ s s'
        (with_context-Stays host laws.current _ _
          (laws.mount_keeps "bpf" mount_path "bpf" (mount_flags host) (to_mount_data opts)))
        h
