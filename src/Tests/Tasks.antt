-- ===== src/Tests/Tasks.antt =====
-- The tasks of xtask/src/main.rs.
use bpf_rbacd.Base.{
  String, true, false, none, some, List, [], ◌∷◌, ◌++◌, ◌≡◌, refl, ok, err, string_eq, nat_eq, ◌==◌,
}
use bpf_rbacd.Base.Format.{to_string}
use bpf_rbacd.Xtask.{
  Shell, test, install, clean, daemon, verdict, run_tests, run_install, run_command, main,
}
use bpf_rbacd.Xtask.Text.{contains}
use bpf_rbacd.Base.Paths.{parent}
use bpf_rbacd.Xtask.Install.{Installed}
use bpf_rbacd.Xtask.Workspace.{main-Installed, main_without_manifest}
use bpf_rbacd.Xtask.Verdict.{run_tests_blind}

found :
    (contains "Results: 4 passed, 0 failed" "0 failed" ≡ true)
    × (contains "Results: 3 passed, 1 failed" "0 failed" ≡ false)
    × (contains "" "failed" ≡ false)
unfolding contains nat_eq
found = (refl, refl, refl)

-- A shell that starts every program, ends well, and keeps the programs that it has run.
abbrev shell : Shell
shell = record {
  State = List String;
  status = (λ command s. (ok true, s ++ (command.program ∷ [])));
  output = (λ command s.
      (ok (record { stdout = "Results: 0 passed, 10 failed\n"; success = false }), s));
  exists = (λ path s. true);
  geteuid = (λ s. 0);
  var = (λ name s. ok "/home/me/bpf-rbacd/xtask");
  set_current_dir = (λ dir s. elim (dir == "") [
    | true ↦ (err "No such file or directory", s)
    | false ↦ (ok tt, s ++ (dir ∷ []))
  ]);
}

abbrev installed : List String
installed = "cargo" ∷ "sudo" ∷ "sudo" ∷ []

installs : run_install shell [] ≡ (ok tt, installed)
unfolding run_install
installs = refl

not_built :
    run_command (record shell { exists = λ path s. path == daemon }) install []
    ≡ (err "Client binary not found at target/release/bpf-rbac", "cargo" ∷ [])
unfolding run_command string_eq
not_built = refl

no_cargo :
    run_command (record shell { status = λ command s. (err "not found", s) }) clean []
    ≡ (err "Failed to run cargo clean", [])
unfolding run_command
no_cargo = refl

not_root :
    run_command (record shell { geteuid = λ s. 1000 }) (test false false) []
    ≡ (err "Integration tests require root. Use --sudo=true or run as root.", [])
unfolding run_command nat_eq
not_root = refl

one_failed :
    verdict shell (record { stdout = "Results: 3 passed, 1 failed\n"; success = false })
    ≡ err "Integration tests failed"
unfolding verdict nat_eq
one_failed = refl

main_installs : main shell install [] ≡ (ok tt, "/home/me/bpf-rbacd" ∷ installed)
unfolding main parent string_eq nat_eq
main_installs = refl

main-Installed_example :
    (t : List String) × (shell.set_current_dir "/home/me/bpf-rbacd" [] ≡ (ok tt, t))
    × Installed shell t ("/home/me/bpf-rbacd" ∷ installed)
unfolding string_eq nat_eq
main-Installed_example =
    main-Installed shell ("home" ∷ "me" ∷ "bpf-rbacd" ∷ []) "xtask" []
      ("/home/me/bpf-rbacd" ∷ installed) (refl, (refl, (refl, tt))) refl refl main_installs

-- A shell with no such variable.
abbrev no_cargo_shell : Shell
no_cargo_shell = record shell { var = λ name s. err "environment variable not found" }

main_without_manifest_example :
    main no_cargo_shell clean [] ≡ (err "Failed to change to workspace root", [])
unfolding string_eq
main_without_manifest_example =
    main_without_manifest no_cargo_shell clean "environment variable not found"
      "No such file or directory" [] refl refl

parents :
    (parent "/home/me/bpf/xtask" ≡ some "/home/me/bpf")
    × (parent "." ≡ some "")
    × (parent "/" ≡ none)
    × (parent "/xtask" ≡ some "/")
    × (parent "a/./b/." ≡ some "a")
    × (parent "./xtask" ≡ some ".")
unfolding parent string_eq nat_eq
parents = (refl, refl, refl, refl, refl, refl)

ten_failures : run_tests shell true false [] ≡ (ok tt, "cargo" ∷ "cargo" ∷ [])
unfolding to_string
ten_failures =
    run_tests_blind shell true false "" 0 "1" ""
      (record { stdout = "Results: 0 passed, 10 failed\n"; success = false }) [] ("cargo" ∷ [])
      ("cargo" ∷ "cargo" ∷ []) ("cargo" ∷ "cargo" ∷ []) refl refl refl refl refl
