-- ===== src/Xtask.antt =====
-- xtask/src/main.rs: the task runner. The processes that it starts, and what it asks of the file
-- system and its environment, are parameters; what it prints is left out.
pub mod Script
pub mod Text
pub mod Install
pub mod Verdict
pub mod Workspace
use bpf_rbacd.Base.{
  ℕ, String, ◌<>◌, Bool, true, false, not, ◌||◌, List, [], ◌∷◌, ◌++◌, Result, ok, err, unwrap_or,
  ◌==◌, nat_eq, if◌then◌else◌,
}
use bpf_rbacd.Base.Paths.{parent}
use bpf_rbacd.Base.Effects.{Effect, ◌>>=◌, with_context, ensure, pure}
use bpf_rbacd.Xtask.Script.{integration_test_script}
use bpf_rbacd.Xtask.Text.{contains}

-- `std::process::Command`
pub record Command : Type 0 where
  pub program : String
  pub args : List String

-- `std::process::Output`, as far as it is read: the text of the standard output, and whether the
-- exit status is a success.
pub record Output : Type 0 where
  pub stdout : String
  pub success : Bool

-- `status` tells whether the exit status is a success; it and `output` fail if no process starts.
pub record Shell : Type 1 where
  pub State : Type 0
  pub status : Command → Effect State Bool
  pub output : Command → Effect State Output
  pub exists : String → State → Bool
  pub geteuid : State → ℕ
  pub var : String → State → Result String String
  pub set_current_dir : String → Effect State (Unit {0})

pub data Commands : Type 0 where
  test : (sudo verbose : Bool) → Commands
  build : (release : Bool) → Commands
  install : Commands
  clean : Commands

abbrev pub cargo : List String → Command
cargo args = record { program = "cargo"; args = args }

abbrev pub daemon : String
daemon = "target/release/bpf-rbacd"

abbrev pub client : String
client = "target/release/bpf-rbac"

abbrev pub sudo_install : String → Command
sudo_install binary = record {
  program = "sudo";
  args = "install" ∷ "-m" ∷ "755" ∷ binary ∷ "/usr/local/bin/" ∷ [];
}

abbrev pub bash : Bool → String → Command
bash true script = record { program = "sudo"; args = "-E" ∷ "bash" ∷ "-c" ∷ script ∷ [] }
bash false script = record { program = "bash"; args = "-c" ∷ script ∷ [] }

module _ (shell : Shell) where
  -- A command whose start and whose success are both checked.
  abbrev pub checked : String → String → Command → Effect shell.State (Unit {0})
  checked not_started failed command = do
    succeeded ← with_context not_started (shell.status command)
    ensure succeeded failed

  unfoldable pub run_build : Bool → Effect shell.State (Unit {0})
  run_build release =
      checked "Failed to run cargo build" "Build failed"
        (cargo ("build" ∷ (if release then "--release" ∷ [] else [])))

  unfoldable pub run_clean : Effect shell.State (Unit {0})
  run_clean = checked "Failed to run cargo clean" "Clean failed" (cargo ("clean" ∷ []))

  abbrev pub ensure_exists : String → String → Effect shell.State (Unit {0})
  ensure_exists path message s = ensure (shell.exists path s) message s

  unfoldable pub run_install : Effect shell.State (Unit {0})
  unfolding run_build
  run_install = do
    _ ← run_build true
    _ ← ensure_exists daemon ("Daemon binary not found at " <> daemon)
    _ ← ensure_exists client ("Client binary not found at " <> client)
    _ ← checked "Failed to install daemon" "Failed to install daemon" (sudo_install daemon)
    checked "Failed to install client" "Failed to install client" (sudo_install client)

  -- Without sudo, the user has to be root.
  abbrev pub check_root : Bool → Effect shell.State (Unit {0})
  check_root true s = (ok tt, s)
  check_root false s =
      ensure (shell.geteuid s == 0)
        "Integration tests require root. Use --sudo=true or run as root." s

  -- The end of `run_tests`, on what the script has printed.
  unfoldable pub verdict : Output → Result (Unit {0}) String
  unfolding contains
  verdict out =
      if contains out.stdout "0 failed"
      then ok tt
      else if not out.success || contains out.stdout "failed"
      then err "Integration tests failed"
      else ok tt

  unfoldable pub run_tests : Bool → Bool → Effect shell.State (Unit {0})
  unfolding run_build verdict
  run_tests sudo verbose = do
    _ ← check_root sudo
    _ ← run_build true
    _ ← checked "Failed to run unit tests" "Unit tests failed" (cargo ("test" ∷ "--lib" ∷ []))
    out ←
        with_context "Failed to run integration tests"
          (shell.output (bash sudo (integration_test_script verbose)))
    λ s. (verdict out, s)

  -- The `match` at the end of `main`.
  unfoldable pub run_command : Commands → Effect shell.State (Unit {0})
  unfolding run_build run_clean run_install run_tests
  run_command (test sudo verbose) = run_tests sudo verbose
  run_command (build release) = run_build release
  run_command install = run_install
  run_command clean = run_clean

  -- `main` from the parsed command on. The parent of the manifest's directory is the workspace.
  abbrev pub manifest_dir : Result String String → String
  manifest_dir (ok dir) = dir
  manifest_dir (err _) = "."

  unfoldable pub main : Commands → Effect shell.State (Unit {0})
  unfolding run_command parent
  main command s =
      let workspace_root =
        unwrap_or (parent (manifest_dir (shell.var "CARGO_MANIFEST_DIR" s))) "." in
      (with_context "Failed to change to workspace root" (shell.set_current_dir workspace_root)
          >>= λ _. run_command command)
        s
