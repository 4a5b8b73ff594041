-- ===== src/Git/Outcome.antt =====
-- Which git commands stand behind a commit of the git adapter that returns nil.
use hambone.Base.{String, ◌<>◌, Bool, true, false, ◌≡◌, ◌≢◌, ◌↔◌, ◌⊎◌, none, List, [], ◌∷◌, arith}
use hambone.Go.{Error, ok}
use hambone.Sys.{Os}
use hambone.Git.Commands.{run_command, rollback_and_error, rollback_command}
use hambone.Git.Updater.{WriterFields, commit_files}
use hambone.Git.Deleter.{delete_files}

module _ {O : Type 0} (os : Os O) where
  -- The runs of git with the given arguments, one after the other, each without an error, lead
  -- from the first state to the second.
  abbrev pub Ran : List (List String) → O → O → Type 0
  Ran [] o o' = o ≡ o'
  Ran (args ∷ rest) o o' =
      ((os.combined_output "git" args o).0.error ≡ none)
      × Ran rest (os.combined_output "git" args o).1 o'

  abbrev pub diff_args : String → List String
  diff_args dir = "diff" ∷ "--exit-code" ∷ "HEAD" ∷ dir ∷ []

  abbrev pub apply_args : Bool → String → String → List (List String)
  apply_args true dir name = ("add" ∷ dir ∷ []) ∷ []
  apply_args false dir name =
      ("add" ∷ dir ∷ [])
      ∷ ("commit" ∷ "-m" ∷ ("Automate hambone apply for " <> name) ∷ [])
      ∷ ("push" ∷ [])
      ∷ []

  abbrev pub delete_args : String → String → List (List String)
  delete_args dir name =
      ("rm" ∷ "-rf" ∷ dir ∷ [])
      ∷ ("commit" ∷ "-m" ∷ ("Automate hambone delete for " <> name) ∷ [])
      ∷ ("push" ∷ [])
      ∷ []

  rollback_and_error-fails :
      (dir file : String) (e : Error) (o : O) → (rollback_and_error os dir file e o).0 ≢ ok tt
  unfolding rollback_and_error
  rollback_and_error-fails dir file e o h = grind arith

  -- A command that is rolled back when it fails returns nil exactly if it did not fail, whatever
  -- becomes of the rollback.
  rollback_command-ok :
      (dir file cmd : String) (args : List String) (o : O)
      → ((rollback_command os dir file cmd args o).0 ≡ ok tt)
        ↔ ((os.combined_output cmd args o).0.error ≡ none)
  unfolding rollback_command run_command
  rollback_command-ok dir file cmd args o =
      (λ h. grind (arith, rollback_and_error-fails), λ h. grind arith)

  -- What a command that did not fail leaves.
  rollback_command-state :
      (dir file cmd : String) (args : List String) (o : O)
      → (os.combined_output cmd args o).0.error ≡ none
      → rollback_command os dir file cmd args o ≡ (ok tt, (os.combined_output cmd args o).1)
  unfolding rollback_command run_command
  rollback_command-state dir file cmd args o h = ground arith

  -- A commit returns nil in two cases only. Either `git diff` found no change, and no other
  -- command ran. Or it did, and add and, unless they were to be skipped, commit and push each ran
  -- without an error, and nothing was rolled back.
  pub commit_files-ok :
      (skip_commit : Bool) (fields : WriterFields) (name : String) (o : O)
      → (commit_files os skip_commit fields name o).0 ≡ ok tt
      → let (changes, o₁) = os.combined_output "git" (diff_args fields.working_dir) o in
        let o₂ = (commit_files os skip_commit fields name o).1 in
        ((changes.error ≡ none) × (o₂ ≡ o₁))
        ⊎ ((changes.error ≢ none) × Ran (apply_args skip_commit fields.instance_dir name) o₁ o₂)
  unfolding commit_files run_command
  commit_files-ok true fields name o h = grind (arith, rollback_command-ok, rollback_command-state)
  commit_files-ok false fields name o h = grind (arith, rollback_command-ok, rollback_command-state)

  -- A deletion returns nil exactly if rm, commit and push each ran without an error.
  pub delete_files-ok :
      (fields : WriterFields) (name : String) (o : O)
      → ((delete_files os fields name o).0 ≡ ok tt)
        ↔ Ran (delete_args fields.instance_dir name) o (delete_files os fields name o).1
  unfolding delete_files run_command
  delete_files-ok fields name o = (λ h. ground arith, λ h. ground arith)
