-- ===== src/Git/Repository/Repeated.antt =====
-- What the git adapter makes of a request that has been made before.
use hambone.Base.{
  true, String, ◌<>◌, false, some, List, [], ◌∷◌, ◌≡◌, sym, ap, ◌∙◌, inl, inr, arith, All, refl,
  subst, ◌==◌, if◌then◌else◌, Bool-cases,
}
use hambone.Go.{Result, ok, Unit₀}
use hambone.Go.FilePath.{clean}
use hambone.Pb.{Instance, File}
use hambone.Sys.{Os}
use hambone.State.Receiver.{World, machine}
use hambone.Instances.Statuses.{ItemStatuses}
use hambone.Instances.Requests.{apply}
use hambone.Etcd.Client.{Etcd}
use hambone.Git.Commands.{git_pull}
use hambone.Git.Getter.{Vars}
use hambone.Git.Updater.{WriterFields, commit_files, write_files, write_instance}
use hambone.Git.Engine.{Settings}
use hambone.Git.Bare.{bare_server, fields_for, apply-steps}
use hambone.Git.Repository.{IsRepository}
use hambone.Git.Repository.Written.{
  contents, Unchanged, Unchanged-trans, before_writing, ensure_clean_file-kept, compare_old-kept,
  prepare-ok, write_instance-store,
}
use hambone.Git.Repository.Published.{IsCommitted, IsCommitted-kept, commit_files-contents}
use hambone.Git.Repository.Lost.{commit_files-idle}

module _ {O : Type 0} (os : Os O) (R : IsRepository os) where
  -- A file holds a text, under each spelling of its path.
  abbrev pub Stands : O → String → String → Type 0
  Stands o path text = (j : String) → clean j ≡ clean path → contents os R o j ≡ some text

  abbrev AllStand : O → String → List File → Type 0
  AllStand o dir files = All (λ file. Stands o (dir <> ("/" <> file.name)) file.contents) files

  -- Every file of an Instance is in the working tree already, as it is in the Instance.
  abbrev pub IsInPlace : WriterFields → Instance → O → Type 0
  IsInPlace fields instance o =
      Stands o fields.instance_file instance.kustomization_yaml
      × AllStand o fields.instance_dir instance.files

  -- The same files.
  abbrev SameFiles : O → O → Type 0
  SameFiles o o' = (j : String) → contents os R o' j ≡ contents os R o j

  Stands-kept :
      {o o' : O} (path text : String) → SameFiles o o' → Stands o path text → Stands o' path text
  Stands-kept path text same h j e = same j ∙ h j e

  AllStand-kept :
      {o o' : O} (dir : String) (files : List File)
      → SameFiles o o'
      → AllStand o dir files
      → AllStand o' dir files
  AllStand-kept dir [] same h = tt
  AllStand-kept dir (file ∷ files) same (h, rest) =
      (λ j e. same j ∙ h j e, AllStand-kept dir files same rest)

  -- Writing a file that stands changes no file.
  write_file-same :
      (path text : String) (o : O)
      → Stands o path text
      → (os.write_file path text o).0 ≡ ok tt
      → SameFiles o (os.write_file path text o).1
  write_file-same path text o h written j = elim (Bool-cases (clean j == clean path)) [
    | inl e ↦
        R.files.write_contents path text j o written
        ∙ (ap (λ b. if b then some text else contents os R o j) e ∙ sym (h j (ground arith)))
    | inr e ↦
        R.files.write_contents path text j o written
        ∙ ap (λ b. if b then some text else contents os R o j) e
  ]

  write_files-same :
      (dir : String) (files : List File) (o : O)
      → AllStand o dir files
      → (write_files os dir files o).0 ≡ ok tt
      → SameFiles o (write_files os dir files o).1
  unfolding write_files
  write_files-same dir [] o h written = λ j. refl
  write_files-same dir (file ∷ files) o (h, rest) written =
      let path = dir <> ("/" <> file.name) in
      let made = os.mkdir_all (dir <> ("/" <> file.directory)) o in
      let put = os.write_file path file.contents made.1 in
      let made_same : SameFiles o made.1 =
        λ j. R.files.mkdir_contents (dir <> ("/" <> file.directory)) j o in
      let put_ok : put.0 ≡ ok tt = ground arith in
      let rest_ok : (write_files os dir files put.1).0 ≡ ok tt = ground arith in
      let put_same : SameFiles made.1 put.1 =
        write_file-same path file.contents made.1 (Stands-kept path file.contents made_same h)
          put_ok in
      let both : SameFiles o put.1 = λ j. put_same j ∙ made_same j in
      let done : SameFiles put.1 (write_files os dir files put.1).1 =
        write_files-same dir files put.1 (AllStand-kept dir files both rest) rest_ok in
      λ j. ground (arith, done j, both j)

  -- Writing an Instance whose files stand already changes no file.
  pub write_instance-same :
      (fields : WriterFields) (instance : Instance) (o : O)
      → IsInPlace fields instance o
      → (write_instance os fields instance o).0 ≡ ok tt
      → SameFiles o (write_instance os fields instance o).1
  unfolding write_instance
  write_instance-same fields instance o (h, rest) written =
      let path = fields.instance_file in
      let yaml = instance.kustomization_yaml in
      let made = os.mkdir_all fields.instance_dir o in
      let put = os.write_file path yaml made.1 in
      let made_same : SameFiles o made.1 = λ j. R.files.mkdir_contents fields.instance_dir j o in
      let put_ok : put.0 ≡ ok tt = ground arith in
      let rest_ok : (write_files os fields.instance_dir instance.files put.1).0 ≡ ok tt =
        ground arith in
      let put_same : SameFiles made.1 put.1 =
        write_file-same path yaml made.1 (Stands-kept path yaml made_same h) put_ok in
      let both : SameFiles o put.1 = λ j. put_same j ∙ made_same j in
      let done : SameFiles put.1 (write_files os fields.instance_dir instance.files put.1).1 =
        write_files-same fields.instance_dir instance.files put.1
          (AllStand-kept fields.instance_dir instance.files both rest) rest_ok in
      λ j. ground (arith, done j, both j)

module _ {S O : Type 0} (E : Etcd S) (os : Os O) (R : IsRepository os) (settings : Settings)
    (unmarshal : String → Result ItemStatuses) (instances_dir templates_dir : String)
    (instance : Instance) (w : World S O Vars) where
  abbrev fields : WriterFields
  fields = fields_for E os settings unmarshal instances_dir templates_dir instance

  -- What a push that failed leaves behind, if the remote has nothing new: HEAD is what git sees
  -- below the working directory, the files of the Instance are in place, and a pull does nothing. The
  -- shell reads the directory of the Instance as it is, and the working directory is there, seen from
  -- the one that the server runs in.
  pub record IsLeftBehind : Type 0 where
    pub plain : R.is_plain fields.instance_dir ≡ true
    pub here : R.is_here fields.working_dir ≡ true
    pub pull_idle : Unchanged os R w.os (git_pull os w.os).1
    pub committed : IsCommitted os R fields.working_dir w.os
    pub in_place : IsInPlace os R fields instance w.os

  -- An `Apply` over a lawful git repository, to a server without kustomize and kubectl whose working
  -- directory is there, seen from the directory it runs in, for an Instance whose directory the shell
  -- reads as it is and whose files are in the working tree as they are in the Instance, where HEAD agrees below
  -- the working directory with all that git sees of the working tree, and the pull leaves git and
  -- the files alone: if it returns nil, the index, HEAD, the remote and the files are what they
  -- were. So a commit that HEAD has and the remote has not is not pushed by it.
  pub apply-not_pushed :
      IsLeftBehind
      → let done =
          apply
            (machine os)
            unmarshal
            (bare_server E os settings unmarshal instances_dir templates_dir)
            false
            instance
            w in
        done.0 ≡ ok tt → Unchanged os R w.os done.2.os
  apply-not_pushed left h =
      let (ready, done, last) =
        apply-steps E os settings unmarshal instances_dir templates_dir false instance w h in
      let b = before_writing os R fields instance w.os in
      let before : Unchanged os R w.os b = Unchanged-trans os R left.pull_idle (
        Unchanged-trans os R
          (ensure_clean_file-kept os R fields.instance_dir (git_pull os w.os).1 left.plain)
          (compare_old-kept os R fields.instance_file instance.old_instance _)) in
      let e = prepare-ok os R fields instance w.os ready in
      let written = ap (λ (p : Result Unit₀ × O). p.0) (sym e) ∙ ready in
      let o = (write_instance os fields instance b).1 in
      let standing : IsInPlace os R fields instance b = (
        Stands-kept os R fields.instance_file instance.kustomization_yaml before.1 left.in_place.0,
        AllStand-kept os R fields.instance_dir instance.files before.1 left.in_place.1,
      ) in
      let there : Unchanged os R w.os o = Unchanged-trans os R before (
        write_instance-store os R fields instance b,
        write_instance-same os R fields instance b standing written,
      ) in
      let ended =
        last
        ∙ ap (λ (p : Result Unit₀ × O). (commit_files os false fields instance.name p.1).1) e in
      let committed =
        ap (λ (p : Result Unit₀ × O). (commit_files os false fields instance.name p.1).0) (sym e)
        ∙ done in
      subst (Unchanged os R w.os) (sym ended) (
        Unchanged-trans os R there (
          commit_files-idle os R false fields instance.name o left.here
              (IsCommitted-kept os R fields.working_dir w.os o there left.committed),
          (commit_files-contents os R fields instance.name o committed).1,
        ))
