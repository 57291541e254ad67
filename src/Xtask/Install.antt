-- ===== src/Xtask/Install.antt =====
-- `run_install` of xtask/src/main.rs: what has been done when it ends well.
use bpf_rbacd.Base.{String, ◌<>◌, Bool, true, false, [], ◌∷◌, ◌≡◌, refl, ap, ◌∙◌, arith, Result, ok}
use bpf_rbacd.Base.Effects.{Effect, ◌>>=◌, ok_of_chain, with_context, relabel-ok, ensure}
use bpf_rbacd.Xtask.{
  Command, Shell, cargo, daemon, client, sudo_install, checked, run_build, ensure_exists,
  run_install,
}

module _ {S : Type 0} where
  ensure-ok :
      (test : Bool) (message : String) (s s' : S)
      → ensure test message s ≡ (ok tt, s')
      → (test ≡ true) × (s ≡ s')
  ensure-ok true message s s' h = (refl, ap (λ (r : Result (Unit {0}) String × S). r.1) h)
  ensure-ok false message s s' h = ground arith

module _ (shell : Shell) where
  -- The process has been started and has ended well.
  abbrev pub Succeeded : Command → shell.State → shell.State → Type 0
  Succeeded command s s' = shell.status command s ≡ (ok true, s')

  pub checked-Succeeded :
      (not_started failed : String) (command : Command) (s s' : shell.State)
      → checked shell not_started failed command s ≡ (ok tt, s')
      → Succeeded command s s'
  checked-Succeeded not_started failed command s s' h =
      let (b, t, e, h') =
        ok_of_chain (with_context not_started (shell.status command)) (λ b. ensure b failed) tt s s'
          h in
      let (passed, same) = ensure-ok b failed t s' h' in
      relabel-ok not_started (shell.status command s) b t e
      ∙ ap (λ (c : Bool). (ok c, t)) passed
      ∙ ap (λ (u : shell.State). (ok true, u)) same

  -- The release build first, then both binaries are there, then the one and the other is installed;
  -- nothing else changes the state.
  pub record Installed (s s' : shell.State) : Type 0 where
    pub after_build : shell.State
    pub between : shell.State
    pub built : Succeeded (cargo ("build" ∷ "--release" ∷ [])) s after_build
    pub daemon_there : shell.exists daemon after_build ≡ true
    pub client_there : shell.exists client after_build ≡ true
    pub daemon_installed : Succeeded (sudo_install daemon) after_build between
    pub client_installed : Succeeded (sudo_install client) between s'

  abbrev install_daemon : Effect shell.State (Unit {0})
  install_daemon =
      checked shell "Failed to install daemon" "Failed to install daemon" (sudo_install daemon)

  abbrev install_client : Effect shell.State (Unit {0})
  install_client =
      checked shell "Failed to install client" "Failed to install client" (sudo_install client)

  abbrev install_both : Effect shell.State (Unit {0})
  install_both = install_daemon >>= λ _. install_client

  abbrev find_client : Effect shell.State (Unit {0})
  find_client =
      ensure_exists shell client ("Client binary not found at " <> client) >>= λ _. install_both

  abbrev find_daemon : Effect shell.State (Unit {0})
  find_daemon =
      ensure_exists shell daemon ("Daemon binary not found at " <> daemon) >>= λ _. find_client

  -- An installation that ends well has built the release, found both binaries, and installed the
  -- daemon and then the client, each by a command that has ended well.
  pub run_install-Installed :
      (s s' : shell.State) → run_install shell s ≡ (ok tt, s') → Installed s s'
  unfolding run_install run_build
  run_install-Installed s s' h =
      let (_, t, built, h₁) = ok_of_chain (run_build shell true) (λ _. find_daemon) tt s s' h in
      let (_, t₁, found, h₂) =
        ok_of_chain (ensure_exists shell daemon ("Daemon binary not found at " <> daemon))
          (λ _. find_client) tt t s' h₁ in
      let (there, same) = ensure-ok (shell.exists daemon t) _ t t₁ found in
      let (_, t₂, found', h₃) =
        ok_of_chain (ensure_exists shell client ("Client binary not found at " <> client))
          (λ _. install_both) tt t₁ s' h₂ in
      let (there', same') = ensure-ok (shell.exists client t₁) _ t₁ t₂ found' in
      let (_, t₃, first, second) = ok_of_chain install_daemon (λ _. install_client) tt t₂ s' h₃ in
      let one = checked-Succeeded _ _ (sudo_install daemon) t₂ t₃ first in
      record {
        after_build = t;
        between = t₃;
        built = checked-Succeeded _ _ (cargo ("build" ∷ "--release" ∷ [])) s t built;
        daemon_there = there;
        client_there = ap (λ (u : shell.State). shell.exists client u) same ∙ there';
        daemon_installed =
            ap (λ (u : shell.State). shell.status (sudo_install daemon) u) (same ∙ same') ∙ one;
        client_installed = checked-Succeeded _ _ (sudo_install client) t₃ s' second;
      }
