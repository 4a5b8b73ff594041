-- ===== src/Git/Loaded.antt =====
-- What the walk over the directory of an Instance collects.
use hambone.Base.{
  String, true, false, ◌≡◌, ◌≢◌, refl, Option, none, some, List, [], ◌∷◌, ◌++◌, arith, All,
  All-append, String-discrete, ◌⊎◌, inl, inr,
}
use hambone.Go.{Error, ok, Result-cases}
use hambone.Pb.{File}
use hambone.Helpers.{kustomization_file_name}
use hambone.Sys.{Os, Visit, found, unreadable}
use hambone.Git.Loader.{file_at, add_file, visit, visit_all}
use hambone.Go.FilePath.{dir}

-- A file that stands beside the kustomization.yaml of its Instance, at its own directory.
abbrev pub IsBeside : File → Type 0
IsBeside file = (file.name ≢ kustomization_file_name) × (file.directory ≡ dir file.name)

All-ok : {A : Type 0} (P : A → Type 0) (xs ys : List A) → ok xs ≡ ok ys → All P xs → All P ys
All-ok P xs ys e h = let same : xs ≡ ys = cc in rw (← same) h

file_name-cases :
    (path : String) → (path ≡ kustomization_file_name) ⊎ (path ≢ kustomization_file_name)
file_name-cases path = elim (String-discrete path kustomization_file_name) [
  | yes e ↦ inl e
  | no n ↦ inr n
]

add_file-IsBeside :
    (e : Error) (files more : List File) (contents : String) (path : Option String)
    → All IsBeside files
    → add_file e files contents path ≡ ok more
    → All IsBeside more
add_file-IsBeside e files more contents none h r = cc
add_file-IsBeside e files more contents (some path) h r = elim (file_name-cases path) [
  | inl same ↦ All-ok IsBeside files more (ground (arith, same)) h
  | inr differs ↦
      All-ok IsBeside (files ++ (file_at path contents ∷ [])) more (ground (arith, differs))
        (All-append IsBeside files _ h ((differs, refl), tt))
]

module _ {O : Type 0} (os : Os O) where
  visit-IsBeside :
      (instance_dir : String) (files more : List File) (v : Visit) (o : O)
      → All IsBeside files
      → (visit os instance_dir files v o).0 ≡ ok more
      → All IsBeside more
  unfolding visit
  visit-IsBeside instance_dir files more (unreadable path e) o h r = cc
  visit-IsBeside instance_dir files more (found path true) o h r = All-ok IsBeside files more r h
  visit-IsBeside instance_dir files more (found path false) o h r = grind (arith, add_file-IsBeside)

  -- In what a walk over the directory of an Instance that returns nil collects, no file is named
  -- kustomization.yaml, the file of the Instance itself, and each file carries the directory of its
  -- own path, if the files that it began with are so.
  pub visit_all-IsBeside :
      (instance_dir : String) (files more : List File) (visits : List Visit) (o : O)
      → All IsBeside files
      → (visit_all os instance_dir files visits o).0 ≡ ok more
      → All IsBeside more
  unfolding visit_all
  visit_all-IsBeside instance_dir files more [] o h r = All-ok IsBeside files more r h
  visit_all-IsBeside instance_dir files more (v ∷ visits) o h r =
      elim (Result-cases (visit os instance_dir files v o).0) [
        | inl (between, e) ↦
            visit_all-IsBeside instance_dir between more visits (visit os instance_dir files v o).1
              (visit-IsBeside instance_dir files between v o h e) (ground arith)
        | inr failed ↦ absurd (elim failed [ inl x ↦ ground arith | inr x ↦ ground arith ])
      ]
