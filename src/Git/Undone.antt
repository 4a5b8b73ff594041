-- ===== src/Git/Undone.antt =====
-- What a rollback that returns nil has done.
use hambone.Base.{String, ◌≡◌, ◌≢◌, ◌⊎◌, none, List, [], ◌∷◌, arith}
use hambone.Go.{ok}
use hambone.Sys.{Os, Output}
use hambone.Git.Commands.{run_command, rollback}
use hambone.Git.Outcome.{Ran}

module _ {O : Type 0} (os : Os O) where
  -- `git ls-files --error-unmatch`
  abbrev pub listed : String → O → Output × O
  listed path = os.combined_output "git" ("ls-files" ∷ "--error-unmatch" ∷ path ∷ [])

  abbrev pub Restored : String → O → O → Type 0
  Restored instance_file =
      Ran os (("reset" ∷ "HEAD" ∷ instance_file ∷ []) ∷ ("checkout" ∷ instance_file ∷ []) ∷ [])

  -- `rm` with the given arguments ran without an error.
  abbrev pub Removed : List String → O → O → Type 0
  Removed args a b =
      ((os.combined_output "rm" args a).0.error ≡ none) × ((os.combined_output "rm" args a).1 ≡ b)

  -- A rollback that returns nil has restored the file by reset and checkout if git tracks it, has
  -- removed the file if git tracks its directory only, and has removed the directory if git tracks
  -- neither, in each case without an error.
  rollback-ok :
      (instance_dir instance_file : String) (o : O)
      → (rollback os instance_dir instance_file o).0 ≡ ok tt
      → let o₁ = (listed instance_file o).1 in
        let o₂ = (listed instance_dir o₁).1 in
        let last = (rollback os instance_dir instance_file o).1 in
        (((listed instance_file o).0.error ≡ none) × Restored instance_file o₁ last)
        ⊎ (((listed instance_file o).0.error ≢ none)
            × ((listed instance_dir o₁).0.error ≡ none)
            × Removed ("-f" ∷ instance_file ∷ []) o₂ last)
        ⊎ (((listed instance_file o).0.error ≢ none)
            × ((listed instance_dir o₁).0.error ≢ none)
            × Removed ("-rf" ∷ instance_dir ∷ []) o₂ last)
  unfolding rollback run_command
  rollback-ok instance_dir instance_file o h = ground arith
