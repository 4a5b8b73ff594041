-- ===== src/Git/Repository/Written.antt =====
-- What `Init` of the git updater and of the git deleter makes of the repository.
use hambone.Base.{true, String, ◌<>◌, Option, none, some, List, [], ◌∷◌, ◌≡◌, ◌≢◌, refl, ◌∙◌, arith}
use hambone.Go.{ok}
use hambone.Go.FilePath.{clean}
use hambone.Pb.{Instance, OldInstance, File}
use hambone.Sys.{Os}
use hambone.Git.Commands.{run_command, git_pull, ensure_clean_file}
use hambone.Git.Updater.{WriterFields, compare_old, write_files, write_instance, prepare}
use hambone.Git.WrittenFiles.{IsApart, write_files-contents}
use hambone.Git.Repository.{IsRepository}

module _ {O : Type 0} (os : Os O) (R : IsRepository os) where
  abbrev pub contents : O → String → Option String
  contents = R.files.contents

  -- Nothing in git has changed, and no file.
  abbrev pub Unchanged : O → O → Type 0
  Unchanged o o' = (R.store o' ≡ R.store o) × ((j : String) → contents o' j ≡ contents o j)

  pub Unchanged-trans : {a b c : O} → Unchanged a b → Unchanged b c → Unchanged a c
  Unchanged-trans h k = (k.0 ∙ h.0, λ j. k.1 j ∙ h.1 j)

  abbrev pub IsUpToDate : O → Type 0
  IsUpToDate o = (R.store o).remote ≡ (R.store o).head

  pub git_pull-kept : (o : O) → IsUpToDate o → Unchanged o (git_pull os o).1
  unfolding git_pull run_command
  git_pull-kept o u = (R.pull_store o u, λ j. R.pull_contents j o u)

  abbrev diff_index_args : String → List String
  diff_index_args dir = "--exit-code" ∷ "--" ∷ dir ∷ []

  pub ensure_clean_file-kept :
      (dir : String) (o : O) → R.is_plain dir ≡ true → Unchanged o (ensure_clean_file os dir o).1
  unfolding ensure_clean_file run_command
  ensure_clean_file-kept dir o plain =
      let o₁ = (os.combined_output "git" ("diff" ∷ diff_index_args dir) o).1 in
      (
        ground (arith, R.diff_store (diff_index_args dir) o, R.others_store dir o₁ plain),
        λ j.
            ground
              (arith, R.diff_contents (diff_index_args dir) j o, R.others_contents dir j o₁ plain),
      )

  pub compare_old-kept :
      (file : String) (old : Option OldInstance) (o : O) → Unchanged o (compare_old os file old o).1
  unfolding compare_old
  compare_old-kept file none o = (refl, λ j. refl)
  compare_old-kept file (some old) o =
      let o₁ = (os.not_exist file o).1 in
      (
        ground (arith, R.not_exist_store file o, R.read_store file o₁),
        λ j. ground (arith, R.files.not_exist_contents file j o, R.read_contents file j o₁),
      )

  write_files-store :
      (dir : String) (files : List File) (o : O)
      → R.store (write_files os dir files o).1 ≡ R.store o
  unfolding write_files
  write_files-store dir [] o = refl
  write_files-store dir (file ∷ files) o =
      let made = os.mkdir_all (dir <> ("/" <> file.directory)) o in
      let written = os.write_file (dir <> ("/" <> file.name)) file.contents made.1 in
      ground (
        arith,
        R.mkdir_store (dir <> ("/" <> file.directory)) o,
        R.write_store (dir <> ("/" <> file.name)) file.contents made.1,
        write_files-store dir files written.1,
      )

  -- Writing an Instance does nothing in git.
  pub write_instance-store :
      (fields : WriterFields) (instance : Instance) (o : O)
      → R.store (write_instance os fields instance o).1 ≡ R.store o
  unfolding write_instance
  write_instance-store fields instance o =
      let made = os.mkdir_all fields.instance_dir o in
      let written = os.write_file fields.instance_file instance.kustomization_yaml made.1 in
      ground (
        arith,
        R.mkdir_store fields.instance_dir o,
        R.write_store fields.instance_file instance.kustomization_yaml made.1,
        write_files-store fields.instance_dir instance.files written.1,
      )

  -- A path that the Instance has no file at keeps what it holds.
  pub write_instance-outside :
      (fields : WriterFields) (instance : Instance) (path : String) (o : O)
      → clean path ≢ clean fields.instance_file
      → IsApart os R.files path fields.instance_dir instance.files
      → (write_instance os fields instance o).0 ≡ ok tt
      → contents (write_instance os fields instance o).1 path ≡ contents o path
  unfolding write_instance
  write_instance-outside fields instance path o differs apart h =
      let made = os.mkdir_all fields.instance_dir o in
      let written = os.write_file fields.instance_file instance.kustomization_yaml made.1 in
      ground (
        arith,
        differs,
        R.files.mkdir_contents fields.instance_dir path o,
        R.files.write_contents fields.instance_file instance.kustomization_yaml path made.1,
        write_files-contents os R.files path fields.instance_dir instance.files written.1 apart,
      )

  -- The machine before the Instance is written.
  abbrev pub before_writing : WriterFields → Instance → O → O
  before_writing fields instance o =
      (compare_old os fields.instance_file instance.old_instance
        (ensure_clean_file os fields.instance_dir (git_pull os o).1).1).1

  pub before_writing-kept :
      (fields : WriterFields) (instance : Instance) (o : O)
      → R.is_plain fields.instance_dir ≡ true
      → IsUpToDate o
      → Unchanged o (before_writing fields instance o)
  before_writing-kept fields instance o plain u = Unchanged-trans (git_pull-kept o u) (
      Unchanged-trans (ensure_clean_file-kept fields.instance_dir (git_pull os o).1 plain)
        (compare_old-kept fields.instance_file instance.old_instance _))

  -- `Init` of the updater, when it returns nil, has ended by writing the Instance.
  pub prepare-ok :
      (fields : WriterFields) (instance : Instance) (o : O)
      → (prepare os fields instance o).0 ≡ ok tt
      → prepare os fields instance o
        ≡ write_instance os fields instance (before_writing fields instance o)
  prepare-ok fields instance o h = ground arith
