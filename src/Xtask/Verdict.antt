-- ===== src/Xtask/Verdict.antt =====
-- What `run_tests` of xtask/src/main.rs makes of the script's output.
use text.Mathlib.TextLemmas.{append_assoc}
use bpf_rbacd.Base.{ℕ, String, ◌<>◌, Bool, true, [], ◌∷◌, ◌≡◌, refl, sym, ap, ◌∙◌, ok, nat_eq}
use bpf_rbacd.Base.Format.{to_string}
use bpf_rbacd.Xtask.{
  Command, Output, Shell, cargo, bash, checked, run_build, check_root, verdict, run_tests,
}
use bpf_rbacd.Xtask.Script.{integration_test_script}
use bpf_rbacd.Xtask.Text.{contains, contains-append}

-- The script's last line of results, after other text, and what the clean-up prints.
abbrev pub results : String → ℕ → String → String → String
results before passed failed after =
    before <> "Results: " <> to_string passed <> " passed, " <> failed <> " failed\n" <> after

report_tail :
    (tens after : String)
    → (tens <> "0") <> " failed\n" <> after ≡ tens <> "0 failed" <> "\n" <> after
report_tail tens after =
    append_assoc tens "0" (" failed\n" <> after)
    ∙ ap (λ (t : String). tens <> t)
        (ap (λ (t : String). "0" <> t) (append_assoc " failed" "\n" after)
          ∙ sym (append_assoc "0" " failed" ("\n" <> after)))

regroup :
    (a b c d e rest : String) → a <> b <> c <> d <> e <> rest ≡ (a <> b <> c <> d <> e) <> rest
regroup a b c d e rest = simp append_assoc

results-contains :
    (before : String) (passed : ℕ) (tens after : String)
    → contains (results before passed (tens <> "0") after) "0 failed" ≡ true
results-contains before passed tens after =
    ap
      (λ (t : String).
        contains (before <> "Results: " <> to_string passed <> " passed, " <> t) "0 failed")
      (report_tail tens after)
    ∙ ap (λ (t : String). contains t "0 failed")
        (regroup before "Results: " (to_string passed) " passed, " tens
          ("0 failed" <> "\n" <> after))
    ∙ contains-append (before <> "Results: " <> to_string passed <> " passed, " <> tens) "0 failed"
        ("\n" <> after)

module _ (shell : Shell) where
  checked_succeeds :
      (not_started failed : String) (command : Command) (s s' : shell.State)
      → shell.status command s ≡ (ok true, s')
      → checked shell not_started failed command s ≡ (ok tt, s')
  checked_succeeds not_started failed command s s' e = rw e refl

  -- Where the steps before have ended well and the script reports a number of failures whose last
  -- digit is 0, the tests have passed, whatever the number and the script's exit status.
  pub run_tests_blind :
      (sudo verbose : Bool) (before : String) (passed : ℕ) (tens after : String) (out : Output)
      (s s₁ s₂ s₃ : shell.State)
      → check_root shell sudo s ≡ (ok tt, s)
      → shell.status (cargo ("build" ∷ "--release" ∷ [])) s ≡ (ok true, s₁)
      → shell.status (cargo ("test" ∷ "--lib" ∷ [])) s₁ ≡ (ok true, s₂)
      → shell.output (bash sudo (integration_test_script verbose)) s₂ ≡ (ok out, s₃)
      → out.stdout ≡ results before passed (tens <> "0") after
      → run_tests shell sudo verbose s ≡ (ok tt, s₃)
  unfolding run_tests run_build verdict
  run_tests_blind sudo verbose before passed tens after out s s₁ s₂ s₃ root built unit ran text =
      rw
        (
          root,
          checked_succeeds "Failed to run cargo build" "Build failed"
              (cargo ("build" ∷ "--release" ∷ [])) s s₁ built,
          checked_succeeds "Failed to run unit tests" "Unit tests failed"
              (cargo ("test" ∷ "--lib" ∷ [])) s₁ s₂ unit,
          ran,
          text,
          results-contains before passed tens after,
        )
        refl
