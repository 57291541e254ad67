-- ===== src/Xtask/Workspace.antt =====
-- `main` of xtask/src/main.rs: the directory that the commands run in.
use bpf_rbacd.Base.{
  String, ◌<>◌, true, List, [], ◌∷◌, ◌++◌, ◌≡◌, refl, sym, string_eq, nat_eq, ap, ◌∙◌, Result, ok,
  err, unwrap_or,
}
use bpf_rbacd.Base.Effects.{◌>>=◌, ok_of_chain, with_context, relabel-ok}
use bpf_rbacd.Base.Paths.{parent, join, Components, is_component, parent-join}
use bpf_rbacd.Xtask.{Shell, Commands, install, manifest_dir, run_command, main}
use bpf_rbacd.Xtask.Install.{Installed, run_install-Installed}

module _ (shell : Shell) where
  -- `main` with the directory that it changes to.
  main_at :
      (command : Commands) (found : Result String String) (dir : String) (s : shell.State)
      → shell.var "CARGO_MANIFEST_DIR" s ≡ found
      → unwrap_or (parent (manifest_dir shell found)) "." ≡ dir
      → main shell command s
        ≡ (with_context "Failed to change to workspace root" (shell.set_current_dir dir) >>= λ _.
              run_command shell command)
            s
  unfolding main
  main_at command found dir s there root = rw (there, root) refl

  -- As cargo runs it, with the manifest's directory in the environment, an installation that ends well
  -- has changed to the parent of that directory and has installed both binaries of the release that it
  -- has built there.
  pub main-Installed :
      (names : List String) (name : String) (s s' : shell.State)
      → Components names
      → is_component name ≡ true
      → shell.var "CARGO_MANIFEST_DIR" s ≡ ok ("/" <> join (names ++ (name ∷ [])))
      → main shell install s ≡ (ok tt, s')
      → (t : shell.State) × (shell.set_current_dir ("/" <> join names) s ≡ (ok tt, t))
        × Installed shell t s'
  unfolding run_command
  main-Installed names name s s' plain own there h =
      let dir = "/" <> join names in
      let runs =
        main_at install (ok ("/" <> join (names ++ (name ∷ [])))) dir s there
          (ap (λ p. unwrap_or p ".") (parent-join names name plain own)) in
      let (_, t, changed, installs) =
        ok_of_chain (with_context "Failed to change to workspace root" (shell.set_current_dir dir))
          (λ _. run_command shell install) tt s s' (sym runs ∙ h) in
      (
        t,
        relabel-ok "Failed to change to workspace root" (shell.set_current_dir dir s) tt t changed,
        run_install-Installed shell t s' installs,
      )

  -- Without the variable every command fails before it starts a process: the parent of the fallback
  -- "." is the empty path, to which no process can change.
  pub main_without_manifest :
      (command : Commands) (message e : String) (s : shell.State)
      → shell.var "CARGO_MANIFEST_DIR" s ≡ err message
      → shell.set_current_dir "" s ≡ (err e, s)
      → main shell command s ≡ (err "Failed to change to workspace root", s)
  unfolding main parent string_eq nat_eq
  main_without_manifest command message e s missing refused =
      main_at command (err message) "" s missing refl ∙ rw (refused) refl
