-- ===== src/Git/Commands.antt =====
-- The commands that the git adapter runs: `gitPull`, `ensureCleanFile`, `rollback` and its kin.
use hambone.Base.{String, ◌<>◌, none, some, List, [], ◌∷◌, if◌then◌else◌, contains}
use hambone.Go.{
  Error, Code, plain, status, error_text, Result, ok, err, Action, Unit₀, fail, rescue, check, ◌>>◌,
}
use hambone.Helpers.{indent, new_exec_error}
use hambone.Sys.{Os, Output}

abbrev pub tracked_uncommitted_changes_error : Error
tracked_uncommitted_changes_error = status Code.failed_precondition "tracked uncommitted changes"

abbrev pub untracked_uncommitted_changes_error : Error
untracked_uncommitted_changes_error =
    status Code.failed_precondition "untracked uncommitted changes"

-- `status.Errorf(codes.Unknown, "…%s", err)`
abbrev pub unknown : String → Error → Error
unknown text e = status Code.unknown (text <> error_text e)

abbrev pub wrap : {W A : Type 0} → (Error → Error) → Action W A → Action W A
wrap f m = rescue m (λ e. fail (f e))

module _ {O : Type 0} (os : Os O) where
  -- `exec.Command(cmd, args...).CombinedOutput()`, with its error made by `f` from both results.
  abbrev pub outcome : (Error → String → Error) → Output → Result Unit₀
  outcome f output = elim output.error [ none ↦ ok tt | some e ↦ err (f e output.text) ]

  unfoldable pub run_command : (Error → String → Error) → String → List String → Action O Unit₀
  run_command f cmd args o =
      let (output, o') = os.combined_output cmd args o in (outcome f output, o')

  abbrev pub pull_error : Error → String → Error
  pull_error e output =
      if contains output "Connection timed out"
      then status Code.unavailable ("git pull failed with a connection timeout: " <> error_text e)
      else status Code.unknown ("git pull failed for unknown reasons: " <> error_text e)

  unfoldable pub git_pull : Action O Unit₀
  unfolding run_command
  git_pull = run_command pull_error "git" ("pull" ∷ [])

  unfoldable pub ensure_clean_file : String → Action O Unit₀
  unfolding run_command
  ensure_clean_file instance_dir = do
    run_command (λ _ _. tracked_uncommitted_changes_error) "git"
        ("diff" ∷ "--exit-code" ∷ "--" ∷ instance_dir ∷ [])
    run_command (λ _ _. untracked_uncommitted_changes_error) "sh"
        ("-c"
          ∷ ("test -z $(" <> (("git ls-files --exclude-standard --others " <> instance_dir) <> ")"))
          ∷ [])

  -- The branch of `rollback` where the file is tracked, and the two where it is not.
  abbrev pub restore_tracked : String → Action O Unit₀
  restore_tracked instance_file = do
    run_command (λ e output. new_exec_error e output "git" ("reset" ∷ "HEAD" ∷ instance_file ∷ []))
        "git" ("reset" ∷ "HEAD" ∷ instance_file ∷ [])
    run_command (λ e output. new_exec_error e output "git" ("checkout" ∷ instance_file ∷ [])) "git"
        ("checkout" ∷ instance_file ∷ [])

  abbrev pub remove_dir : String → Action O Unit₀
  remove_dir instance_dir =
      run_command (λ e output. new_exec_error e output "rm" ("-rf" ∷ instance_dir ∷ [])) "rm"
        ("-rf" ∷ instance_dir ∷ [])

  -- The error names another command than the one that ran, as in the source.
  abbrev pub remove_file : String → String → Action O Unit₀
  remove_file instance_dir instance_file =
      run_command (λ e output. new_exec_error e output "rm" ("-rf" ∷ instance_dir ∷ [])) "rm"
        ("-f" ∷ instance_file ∷ [])

  abbrev pub is_tracked : String → Action O Unit₀
  is_tracked path = run_command (λ e _. e) "git" ("ls-files" ∷ "--error-unmatch" ∷ path ∷ [])

  unfoldable pub rollback : String → String → Action O Unit₀
  unfolding run_command
  rollback instance_dir instance_file =
      check (is_tracked instance_file)
        (λ _.
          check (is_tracked instance_dir) (λ _. remove_dir instance_dir)
            (remove_file instance_dir instance_file))
        (restore_tracked instance_file)

  -- `rollbackAndError` always returns an error.
  unfoldable pub rollback_and_error : String → String → Error → Action O Unit₀
  unfolding rollback
  rollback_and_error instance_dir instance_file e =
      check (rollback instance_dir instance_file)
        (λ r. fail (
          plain (
            "error rolling back!\n"
            <> (indent (error_text r) <> ("\n" <> (error_text e <> "\n"))))))
        (fail e)

  unfoldable pub rollback_command : String → String → String → List String → Action O Unit₀
  unfolding run_command rollback_and_error
  rollback_command instance_dir instance_file cmd args =
      rescue (run_command (λ e _. e) cmd args) (rollback_and_error instance_dir instance_file)
