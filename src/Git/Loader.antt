-- ===== src/Git/Loader.antt =====
-- `loadInstance`: an Instance and its files, read from a directory.
use hambone.Base.{
  String, ◌<>◌, Bool, true, false, Option, none, some, List, [], ◌∷◌, ◌++◌, ◌==◌, ◌&&◌,
  if◌then◌else◌,
}
use hambone.Go.{Error, Code, plain, status, error_text, Result, ok, err, Action, pure, fail, ◌>>=◌}
use hambone.Go.FilePath.{dir, rel}
use hambone.Pb.{Instance, File, InstanceList}
use hambone.Helpers.{kustomization_file_name, get_instance_dir_file}
use hambone.Sys.{Os, Visit, found, unreadable, FileInfo}
use hambone.Git.Commands.{unknown, wrap}

abbrev pub new_instance : String → String → List File → Instance
new_instance name yaml files = record {
  name = name;
  kustomization_yaml = yaml;
  statuses = [];
  statuses_error_message = "";
  old_instance = none;
  files = files;
}

abbrev pub file_at : String → String → File
file_at path contents = record { name = path; directory = dir path; contents = contents }

-- The error of `filepath.Rel`
abbrev pub rel_error : String → String → Error
rel_error base target =
    status Code.unknown
      ("error getting relative path: Rel: can't make " <> (target <> (" relative to " <> base)))

-- The files so far, and a file that was read at a path relative to the directory.
abbrev pub add_file : Error → List File → String → Option String → Result (List File)
add_file e files contents none = err e
add_file e files contents (some path) =
    ok (if path == kustomization_file_name then files else files ++ (file_at path contents ∷ []))

module _ {O : Type 0} (os : Os O) where
  -- The function given to `filepath.Walk`
  unfoldable pub visit : String → List File → Visit → Action O (List File)
  visit instance_dir files (unreadable path e) =
      fail (status Code.unknown ("error walking dir " <> (path <> (": " <> error_text e))))
  visit instance_dir files (found path true) = pure files
  visit instance_dir files (found path false) = do
    contents ← wrap (unknown ("error reading " <> (path <> ": "))) (os.read_file path)
    (λ o. (add_file (rel_error instance_dir path) files contents (rel instance_dir path), o))

  -- `filepath.Walk` ends at the first error.
  unfoldable pub visit_all : String → List File → List Visit → Action O (List File)
  unfolding visit
  visit_all instance_dir files [] = pure files
  visit_all instance_dir files (v ∷ visits) =
      visit instance_dir files v >>= λ more. visit_all instance_dir more visits

  abbrev pub read_instance : String → String → String → Action O InstanceList
  read_instance name instance_dir instance_file = do
    contents ←
        wrap (unknown ("error reading " <> (instance_file <> ": "))) (os.read_file instance_file)
    files ←
        wrap (unknown "error walking templatesDir: ")
          (os.walk instance_dir >>= visit_all instance_dir [])
    pure (new_instance name contents files ∷ [])

  abbrev pub absent_error : String → String → Error
  absent_error instances_dir name = plain (
      "Found directory `"
      <> (instances_dir
          <> ("/"
              <> (name
                  <> ("` but it does not contain a `" <> (kustomization_file_name <> "` file"))))))

  -- What is appended to the list: one Instance, or none if the directory has no Instance in it.
  unfoldable pub load_instance : String → String → Bool → Action O InstanceList
  unfolding visit_all
  load_instance instances_dir name required =
      let (instance_dir, instance_file) = get_instance_dir_file instances_dir name in
      os.not_exist instance_file >>= λ absent.
      if absent
      then (if required then fail (absent_error instances_dir name) else pure [])
      else read_instance name instance_dir instance_file

  -- The loop over a directory, without a name to look for.
  unfoldable pub load_all : String → InstanceList → List FileInfo → Action O InstanceList
  load_all instances_dir list [] = pure list
  load_all instances_dir list (file ∷ files) =
      (if file.is_dir then load_instance instances_dir file.name false else pure []) >>= λ more.
      load_all instances_dir (list ++ more) files

  -- The loop that ends at the first directory of the name.
  unfoldable pub load_named : String → String → InstanceList → List FileInfo → Action O InstanceList
  load_named instances_dir name list [] = pure list
  load_named instances_dir name list (file ∷ files) =
      let rest = load_named instances_dir name list files in
      let this = load_instance instances_dir file.name true >>= (λ more. pure (list ++ more)) in
      if file.is_dir && (file.name == name) then this else rest
