-- ===== src/Namespace/Delegate/Moves.antt =====
-- Where the steps of src/namespace.rs leave the calling thread.
use bpf_rbacd.Base.{ℕ, String, ◌≡◌, refl, sym, ap, ◌∙◌, subst, Result, ok, err, ok_injective}
use bpf_rbacd.Base.Effects.{
  Effect, ◌>>=◌, go_on, ok_of_chain, with_context, relabel-ok, relabel_state,
}
use bpf_rbacd.Namespace.Host.{Host, Namespaces}
use bpf_rbacd.Base.Format.{to_string}
use bpf_rbacd.Namespace.Delegate.{
  TargetNamespace, NsFds, ns_path, open_ns_fd, opened, open_target, open_fds,
}

module _ {ℓ} {V : Type ℓ} (host : Host) (view : host.State → V) where
  -- The step leaves this view of the state as it is, however it ends.
  abbrev pub Stays {κ} : {A : Type κ} → Effect host.State A → Type ℓ
  Stays m = (s : host.State) → view (m s).1 ≡ view s

  pub chain-Stays {κ μ} :
      {A : Type κ} {B : Type μ} (m : Effect host.State A) (next : A → Effect host.State B)
      → Stays m
      → ((a : A) → Stays (next a))
      → Stays (m >>= next)
  chain-Stays m next stays next_stays s = after (m s) (stays s)
    where
      after :
          (r : Result _ String × host.State) → view r.1 ≡ view s → view (go_on next r).1 ≡ view s
      after (ok a, t) h = next_stays a t ∙ h
      after (err e, t) h = h

  pub with_context-Stays {κ} :
      {A : Type κ} (message : String) (m : Effect host.State A)
      → Stays m
      → Stays (with_context message m)
  with_context-Stays message m stays s = ap view (relabel_state message (m s)) ∙ stays s

module _ {ℓ} {V : Type ℓ} (host : Host) (view : host.State → V)
    (open_keeps : (path : String) (s : host.State) → view (host.open_read path s).1 ≡ view s) where
  open_ns_fd-Stays :
      (pid_or_self ns_type : String) → Stays host view (open_ns_fd host pid_or_self ns_type)
  unfolding open_ns_fd
  open_ns_fd-Stays pid ns_type = with_context-Stays host view _ _ (open_keeps (ns_path pid ns_type))

  open_target-Stays :
      (target : TargetNamespace) (u m : host.File) → Stays host view (open_target host target u m)
  unfolding open_target
  open_target-Stays target u m =
      let pid = to_string target.pid in
      chain-Stays host view (open_ns_fd host pid "user")
        (λ tu. open_ns_fd host pid "mnt" >>= λ tm. opened host u m tu tm)
        (open_ns_fd-Stays pid "user")
        λ tu.
          chain-Stays host view (open_ns_fd host pid "mnt") (λ tm. opened host u m tu tm)
            (open_ns_fd-Stays pid "mnt") λ tm s. refl

  pub open_fds-Stays : (target : TargetNamespace) → Stays host view (open_fds host target)
  unfolding open_fds
  open_fds-Stays target =
      chain-Stays host view (open_ns_fd host "self" "user")
        (λ u. open_ns_fd host "self" "mnt" >>= λ m. open_target host target u m)
        (open_ns_fd-Stays "self" "user")
        λ u.
          chain-Stays host view (open_ns_fd host "self" "mnt") (λ m. open_target host target u m)
            (open_ns_fd-Stays "self" "mnt") λ m. open_target-Stays target u m

module _ (host : Host) (laws : Namespaces host) where
  -- The file that the system gives for a namespace of a process.
  abbrev pub Opened : String → String → host.File → Type 0
  Opened pid ns_type f =
      (s : host.State) × (s' : host.State) × (host.open_read (ns_path pid ns_type) s ≡ (ok f, s'))

  open_ns_fd-ok :
      (pid ns_type : String) (f : host.File) (s s' : host.State)
      → open_ns_fd host pid ns_type s ≡ (ok f, s')
      → host.open_read (ns_path pid ns_type) s ≡ (ok f, s')
  unfolding open_ns_fd
  open_ns_fd-ok pid ns_type f s s' h = relabel-ok _ _ f s' h

  opened_stays :
      (pid ns_type : String) (f : host.File) (s s' : host.State)
      → open_ns_fd host pid ns_type s ≡ (ok f, s')
      → laws.current s' ≡ laws.current s
  opened_stays pid ns_type f s s' h =
      sym (ap (λ (r : Result host.File String × host.State). laws.current r.1) h)
      ∙ open_ns_fd-Stays host laws.current laws.open_keeps pid ns_type s

  -- The files are those of the thread's own namespaces and of the target's.
  pub record Saved (target : TargetNamespace) (fds : NsFds host.File) (s s' : host.State)
      : Type 0 where
    pub own_user : laws.inode fds.self_userns ≡ (laws.current s).0
    pub own_mnt : laws.inode fds.self_mntns ≡ (laws.current s).1
    pub other_user : Opened (to_string target.pid) "user" fds.target_userns
    pub other_mnt : Opened (to_string target.pid) "mnt" fds.target_mntns
    pub stayed : laws.current s' ≡ laws.current s

  pub open_fds-Saved :
      (target : TargetNamespace) (fds : NsFds host.File) (s s' : host.State)
      → open_fds host target s ≡ (ok fds, s')
      → Saved target fds s s'
  unfolding open_fds open_target
  open_fds-Saved target fds s s' h =
      let pid = to_string target.pid in
      let (u, s₁, e₁, h₁) =
        ok_of_chain (open_ns_fd host "self" "user")
          (λ u. open_ns_fd host "self" "mnt" >>= λ m. open_target host target u m) fds s s' h in
      let (m, s₂, e₂, h₂) =
        ok_of_chain (open_ns_fd host "self" "mnt") (λ m. open_target host target u m) fds s₁ s'
          h₁ in
      let (tu, s₃, e₃, h₃) =
        ok_of_chain (open_ns_fd host pid "user")
          (λ tu. open_ns_fd host pid "mnt" >>= λ tm. opened host u m tu tm) fds s₂ s' h₂ in
      let (tm, s₄, e₄, h₄) =
        ok_of_chain (open_ns_fd host pid "mnt") (λ tm. opened host u m tu tm) fds s₃ s' h₃ in
      let stay₁ = opened_stays "self" "user" u s s₁ e₁ in
      let stay₂ = opened_stays "self" "mnt" m s₁ s₂ e₂ in
      let stay₃ = opened_stays pid "user" tu s₂ s₃ e₃ in
      let stay₄ = opened_stays pid "mnt" tm s₃ s₄ e₄ in
      let made : NsFds host.File = record {
        self_userns = u;
        self_mntns = m;
        target_userns = tu;
        target_mntns = tm;
      } in
      let built : Saved target made s s₄ = record {
        own_user = laws.self_user u s s₁ (open_ns_fd-ok "self" "user" u s s₁ e₁);
        own_mnt =
            laws.self_mnt m s₁ s₂ (open_ns_fd-ok "self" "mnt" m s₁ s₂ e₂)
            ∙ ap (λ (c : ℕ × ℕ). c.1) stay₁;
        other_user = (s₂, s₃, open_ns_fd-ok pid "user" tu s₂ s₃ e₃);
        other_mnt = (s₃, s₄, open_ns_fd-ok pid "mnt" tm s₃ s₄ e₄);
        stayed = stay₄ ∙ stay₃ ∙ stay₂ ∙ stay₁;
      } in
      let files : ok made ≡ ok fds =
        ap (λ (r : Result (NsFds host.File) String × host.State). r.0) h₄ in
      let state : s₄ ≡ s' = ap (λ (r : Result (NsFds host.File) String × host.State). r.1) h₄ in
      let same : made ≡ fds = ok_injective made fds files in
      subst (λ f. Saved target f s s') same (subst (λ t. Saved target made s t) state built)
