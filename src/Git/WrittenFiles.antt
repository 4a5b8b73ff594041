-- ===== src/Git/WrittenFiles.antt =====
-- What the git updater writes, the loader reads.
use hambone.Base.{
  String, ◌<>◌, Bool, false, ◌≡◌, ◌≢◌, refl, sym, ap, ◌∙◌, Option, some, List, [], ◌∷◌, arith, All,
  ◌==◌, if◌then◌else◌, inl, inr,
}
use hambone.Go.{Error, Result, ok, Result-cases, Action, fail, pure, ◌>>=◌}
use hambone.Go.Rules.{>>=-ok}
use hambone.Go.FilePath.{clean}
use hambone.Pb.{Instance, File, InstanceList}
use hambone.Helpers.{get_instance_dir_file}
use hambone.Sys.{Os}
use hambone.Git.Commands.{unknown, wrap}
use hambone.Git.Loader.{new_instance, visit_all, read_instance, load_instance, absent_error}
use hambone.Git.Loaded.{IsBeside, visit_all-IsBeside}
use hambone.Git.Updater.{WriterFields, write_files, write_instance}

-- What is relied on of files that nobody else writes: paths name the same file if they are the same
-- when they are cleaned.
pub record IsFileSystem {O : Type 0} (os : Os O) : Type 0 where
  pub contents : O → String → Option String
  pub write_contents :
      (p text j : String) (o : O)
      → (os.write_file p text o).0 ≡ ok tt
      → contents (os.write_file p text o).1 j
        ≡ (if clean j == clean p then some text else contents o j)
  pub mkdir_contents : (p j : String) (o : O) → contents (os.mkdir_all p o).1 j ≡ contents o j
  pub not_exist_contents : (p j : String) (o : O) → contents (os.not_exist p o).1 j ≡ contents o j
  pub not_exist_ok :
      (p text : String) (o : O) {b : Bool}
      → contents o p ≡ some text
      → (os.not_exist p o).0 ≡ ok b
      → b ≡ false
  pub read_ok :
      (p text : String) (o : O) → (os.read_file p o).0 ≡ ok text → contents o p ≡ some text

module _ {O : Type 0} (os : Os O) (F : IsFileSystem os) where
  -- The file has another path than each of the files of an Instance.
  abbrev pub IsApart : String → String → List File → Type 0
  IsApart path dir files = All (λ file. clean path ≢ clean (dir <> ("/" <> file.name))) files

  pub write_files-contents :
      (path dir : String) (files : List File) (o : O)
      → IsApart path dir files
      → (write_files os dir files o).0 ≡ ok tt
      → F.contents (write_files os dir files o).1 path ≡ F.contents o path
  unfolding write_files
  write_files-contents path dir [] o apart h = refl
  write_files-contents path dir (file ∷ files) o (differs, apart) h =
      let made = os.mkdir_all (dir <> ("/" <> file.directory)) o in
      let written = os.write_file (dir <> ("/" <> file.name)) file.contents made.1 in
      ground (
        arith,
        differs,
        F.mkdir_contents (dir <> ("/" <> file.directory)) path o,
        F.write_contents (dir <> ("/" <> file.name)) file.contents path made.1,
        write_files-contents path dir files written.1 apart,
      )

  pub write_instance-contents :
      (fields : WriterFields) (instance : Instance) (o : O)
      → IsApart fields.instance_file fields.instance_dir instance.files
      → (write_instance os fields instance o).0 ≡ ok tt
      → F.contents (write_instance os fields instance o).1 fields.instance_file
        ≡ some instance.kustomization_yaml
  unfolding write_instance
  write_instance-contents fields instance o apart h =
      let made = os.mkdir_all fields.instance_dir o in
      let written = os.write_file fields.instance_file instance.kustomization_yaml made.1 in
      ground (
        arith,
        F.write_contents fields.instance_file instance.kustomization_yaml fields.instance_file
            made.1,
        write_files-contents fields.instance_file fields.instance_dir instance.files written.1
            apart,
      )

-- The fields that `NewUpdater` sets.
abbrev pub fields_of : String → String → String → WriterFields
fields_of instances_dir working_dir name =
    let (dir, file) = get_instance_dir_file instances_dir name in
    record { instance_dir = dir; instance_file = file; working_dir = working_dir }

pub wrap-ok :
    {O A : Type 0} (f : Error → Error) (m : Action O A) (o : O) {a : A}
    → (wrap f m o).0 ≡ ok a
    → (m o).0 ≡ ok a
wrap-ok f m o h = elim (Result-cases (m o).0) [
  | inl (a, e) ↦ ground arith
  | inr (inl (x, e)) ↦ absurd (ground arith)
  | inr (inr (p, e)) ↦ absurd (ground arith)
]

some-same : (a b : String) → some a ≡ some b → a ≡ b
some-same a b h = cc

pub ok-same : {A : Type 0} (a b : A) → ok a ≡ ok b → b ≡ a
ok-same a b h = cc

module _ {O : Type 0} (os : Os O) (F : IsFileSystem os) where
  -- One Instance, with the yaml and some files beside it.
  abbrev pub IsLoaded : String → String → InstanceList → Type 0
  IsLoaded name yaml list =
      (files : List File) × (list ≡ new_instance name yaml files ∷ []) × All IsBeside files

  walked-IsBeside :
      (dir : String) (o : O) {files : List File}
      → ((os.walk dir >>= visit_all os dir []) o).0 ≡ ok files
      → All IsBeside files
  walked-IsBeside dir o {files} h =
      let (visits, e, f) = >>=-ok (visit_all os dir []) (os.walk dir) o h in
      visit_all-IsBeside os dir [] files visits (os.walk dir o).1 tt
        (ap (λ (p : Result (List File) × O). p.0) (sym f) ∙ h)

  read-IsLoaded :
      (name dir file yaml : String) (o : O) {list : InstanceList}
      → F.contents o file ≡ some yaml
      → (read_instance os name dir file o).0 ≡ ok list
      → IsLoaded name yaml list
  read-IsLoaded name dir file yaml o {list} held h =
      let walk =
        wrap (unknown "error walking templatesDir: ") (os.walk dir >>= visit_all os dir []) in
      let read = wrap (unknown ("error reading " <> (file <> ": "))) (os.read_file file) in
      let (text, e, f) =
        >>=-ok (λ text. walk >>= λ files. pure (new_instance name text files ∷ [])) read o h in
      let o₁ = (read o).1 in
      let rest = ap (λ (p : Result InstanceList × O). p.0) (sym f) ∙ h in
      let (files, e', f') =
        >>=-ok (λ files. pure (new_instance name text files ∷ [])) walk o₁ rest in
      let answered = ap (λ (p : Result InstanceList × O). p.0) (sym f') ∙ rest in
      let text_read = F.read_ok file text o (wrap-ok _ (os.read_file file) o e) in
      let same = some-same text yaml (sym text_read ∙ held) in
      (
        files,
        ok-same _ _ answered ∙ ap (λ t. new_instance name t files ∷ []) same,
        walked-IsBeside dir o₁ (wrap-ok _ (os.walk dir >>= visit_all os dir []) o₁ e'),
      )

  pub load-IsLoaded :
      (instances_dir name yaml : String) (required : Bool) (o : O) {list : InstanceList}
      → F.contents o (get_instance_dir_file instances_dir name).1 ≡ some yaml
      → (load_instance os instances_dir name required o).0 ≡ ok list
      → IsLoaded name yaml list
  unfolding load_instance
  load-IsLoaded instances_dir name yaml required o {list} held h =
      let (dir, file) = get_instance_dir_file instances_dir name in
      let (absent, e, f) =
        >>=-ok
          (λ absent.
            if absent
            then (if required then fail (absent_error os instances_dir name) else pure [])
            else read_instance os name dir file)
          (os.not_exist file) o h in
      let o₁ = (os.not_exist file o).1 in
      let there = F.not_exist_ok file yaml o held e in
      let rest = ap (λ (p : Result InstanceList × O). p.0) (sym f) ∙ h in
      read-IsLoaded name dir file yaml o₁ (F.not_exist_contents file file o ∙ held) (
        ap
          (λ b.
            ((if b
                then (if required then fail (absent_error os instances_dir name) else pure [])
                else read_instance os name dir file)
              o₁).0)
          (sym there)
        ∙ rest)

  -- If paths name the same file just when they are the same cleaned, and no file of the Instance is
  -- its kustomization.yaml: when the git updater has written an Instance and returned nil, the
  -- loader, if it returns nil, finds one Instance, with this name, this yaml and files none of which
  -- is the kustomization.yaml.
  load-write_instance :
      (instances_dir working_dir : String) (instance : Instance) (required : Bool) (o : O)
      {list : InstanceList}
      → let fields = fields_of instances_dir working_dir instance.name in
        IsApart os F fields.instance_file fields.instance_dir instance.files
        → (write_instance os fields instance o).0 ≡ ok tt
        → (load_instance os instances_dir instance.name required
            (write_instance os fields instance o).1).0
          ≡ ok list
        → IsLoaded instance.name instance.kustomization_yaml list
  load-write_instance instances_dir working_dir instance required o apart written loaded =
      load-IsLoaded instances_dir instance.name instance.kustomization_yaml required _
        (write_instance-contents os F (fields_of instances_dir working_dir instance.name) instance o
          apart written)
        loaded
