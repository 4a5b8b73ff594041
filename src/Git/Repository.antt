-- ===== src/Git/Repository.antt =====
-- What the git adapter relies on of git: the working tree, the index, the branch that is checked
-- out and the branch of the remote, and what the commands that the adapter runs make of them.
pub mod Written
pub mod Published
pub mod Lost
pub mod Removed
pub mod Replaced
pub mod Remote
pub mod Unpushed
pub mod Repeated
pub mod ReadBack
use hambone.Base.{
  String, ◌<>◌, Bool, true, false, Option, none, some, List, [], ◌∷◌, ◌≡◌, ◌↔◌, ◌⊎◌, ◌&&◌,
  if◌then◌else◌,
}
use hambone.Go.{Result, ok}
use hambone.Go.FilePath.{clean}
use hambone.Sys.{Os, Output, FileInfo}
use hambone.Helpers.{kustomization_file_name}
use hambone.Git.Outcome.{diff_args}
use hambone.Git.WrittenFiles.{IsFileSystem}

-- What each path holds in the index, in HEAD, and in the branch of the remote.
pub record Store : Type 0 where
  pub index : String → Option String
  pub head : String → Option String
  pub remote : String → Option String

-- What git sees of a path in the working tree: outside the index, a path is as good as absent.
abbrev pub seen : Option String → Option String → Option String
seen none contents = none
seen (some _) contents = contents

abbrev pub is_some : Option String → Bool
is_some none = false
is_some (some _) = true

-- The text that `ensureCleanFile` gives to the shell.
abbrev pub others_script : String → String
others_script dir = "test -z $(" <> (("git ls-files --exclude-standard --others " <> dir) <> ")")

-- Some entry is a directory of the given name.
abbrev pub Lists : String → List FileInfo → Type 0
Lists name [] = ⊥
Lists name (file ∷ files) = ((file.is_dir ≡ true) × (file.name ≡ name)) ⊎ Lists name files

module _ {O : Type 0} (os : Os O) where
  abbrev pub git : List String → O → Output × O
  git args = os.combined_output "git" args

  abbrev pub others : String → O → Output × O
  others dir = os.combined_output "sh" ("-c" ∷ others_script dir ∷ [])

  -- A repository without ignored files, to which nobody else writes or pushes. `within dir path`
  -- says that the path is one of those that the pathspec `dir` stands for, `is_plain` that the shell
  -- reads a text as it is, `is_name` that a text names an entry of a directory: it has no slash and
  -- is neither . nor .. , and `is_here` that a text is a path which is there, seen from the directory
  -- that the server runs in.
  pub record IsRepository : Type 0 where
    pub files : IsFileSystem os
    pub store : O → Store
    pub within : String → String → Bool
    pub is_plain : String → Bool
    pub is_name : String → Bool
    pub is_here : String → Bool
    pub within_clean : (dir i j : String) → clean i ≡ clean j → within dir i ≡ within dir j
    -- The calls on files leave git alone, and those that read leave the files alone too.
    pub write_store : (p text : String) (o : O) → store (os.write_file p text o).1 ≡ store o
    pub mkdir_store : (p : String) (o : O) → store (os.mkdir_all p o).1 ≡ store o
    pub not_exist_store : (p : String) (o : O) → store (os.not_exist p o).1 ≡ store o
    pub read_store : (p : String) (o : O) → store (os.read_file p o).1 ≡ store o
    pub read_contents :
        (p j : String) (o : O) → files.contents (os.read_file p o).1 j ≡ files.contents o j
    pub read_dir_contents :
        (p j : String) (o : O) → files.contents (os.read_dir p o).1 j ≡ files.contents o j
    -- A directory is listed if it has a kustomization.yaml.
    pub read_dir_lists :
        (dir name text : String) (o : O) {list : List FileInfo}
        → is_name name ≡ true
        → files.contents o ((dir <> ("/" <> name)) <> ("/" <> kustomization_file_name)) ≡ some text
        → (os.read_dir dir o).0 ≡ ok list
        → Lists name list
    -- There is nothing to pull if the remote has the branch as it is.
    pub pull_store :
        (o : O) → (store o).remote ≡ (store o).head → store (git ("pull" ∷ []) o).1 ≡ store o
    pub pull_contents :
        (j : String) (o : O)
        → (store o).remote ≡ (store o).head
        → files.contents (git ("pull" ∷ []) o).1 j ≡ files.contents o j
    -- `diff` compares the working tree, as far as git sees it, with HEAD or with the index. Without a
    -- -- before the path, it fails for a path that is not there.
    pub diff_store : (args : List String) (o : O) → store (git ("diff" ∷ args) o).1 ≡ store o
    pub diff_contents :
        (args : List String) (j : String) (o : O)
        → files.contents (git ("diff" ∷ args) o).1 j ≡ files.contents o j
    pub diff_head :
        (dir : String) (o : O)
        → (git (diff_args os dir) o).0.error ≡ none
        → (j : String) → within dir j ≡ true
        → seen ((store o).index j) (files.contents o j) ≡ (store o).head j
    pub diff_head_here :
        (dir : String) (o : O)
        → is_here dir ≡ true
        → ((j : String)
            → within dir j ≡ true
            → seen ((store o).index j) (files.contents o j) ≡ (store o).head j)
        → (git (diff_args os dir) o).0.error ≡ none
    pub diff_index :
        (dir : String) (o : O)
        → ((git ("diff" ∷ "--exit-code" ∷ "--" ∷ dir ∷ []) o).0.error ≡ none) ↔ (
            (j : String)
            → within dir j ≡ true
            → seen ((store o).index j) (files.contents o j) ≡ (store o).index j)
    -- The shell's test finds no file that is not in the index. What it does for a directory that is
    -- not plain is left open: its name may hold another command.
    pub others_store :
        (dir : String) (o : O) → is_plain dir ≡ true → store (others dir o).1 ≡ store o
    pub others_contents :
        (dir j : String) (o : O)
        → is_plain dir ≡ true
        → files.contents (others dir o).1 j ≡ files.contents o j
    pub others_none :
        (dir : String) (o : O)
        → is_plain dir ≡ true
        → ((others dir o).0.error ≡ none) ↔ (
            (j : String)
            → within dir j ≡ true
            → (store o).index j ≡ none
            → files.contents o j ≡ none)
    -- `add` takes the directory into the index, `commit` the index into HEAD, and `push` HEAD into
    -- the remote; `rm` takes the directory out of the index and out of the working tree.
    pub add_store :
        (dir : String) (o : O)
        → (git ("add" ∷ dir ∷ []) o).0.error ≡ none
        → store (git ("add" ∷ dir ∷ []) o).1 ≡ record (store o) {
          index = λ j. if within dir j then files.contents o j else (store o).index j;
        }
    pub add_contents :
        (dir j : String) (o : O)
        → files.contents (git ("add" ∷ dir ∷ []) o).1 j ≡ files.contents o j
    pub commit_store :
        (message : String) (o : O)
        → (git ("commit" ∷ "-m" ∷ message ∷ []) o).0.error ≡ none
        → store (git ("commit" ∷ "-m" ∷ message ∷ []) o).1
          ≡ record (store o) { head = (store o).index }
    pub commit_contents :
        (message j : String) (o : O)
        → files.contents (git ("commit" ∷ "-m" ∷ message ∷ []) o).1 j ≡ files.contents o j
    pub push_store :
        (o : O)
        → (git ("push" ∷ []) o).0.error ≡ none
        → store (git ("push" ∷ []) o).1 ≡ record (store o) { remote = (store o).head }
    pub push_contents :
        (j : String) (o : O) → files.contents (git ("push" ∷ []) o).1 j ≡ files.contents o j
    pub rm_store :
        (dir : String) (o : O)
        → (git ("rm" ∷ "-rf" ∷ dir ∷ []) o).0.error ≡ none
        → store (git ("rm" ∷ "-rf" ∷ dir ∷ []) o).1
          ≡ record (store o) { index = λ j. if within dir j then none else (store o).index j }
    pub rm_contents :
        (dir j : String) (o : O)
        → (git ("rm" ∷ "-rf" ∷ dir ∷ []) o).0.error ≡ none
        → files.contents (git ("rm" ∷ "-rf" ∷ dir ∷ []) o).1 j
          ≡ (if within dir j && is_some ((store o).index j) then none else files.contents o j)
