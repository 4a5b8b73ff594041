-- ===== src/Tests/Repo.antt =====
-- A repository that knows two paths, and the git adapter's machine on it.
use hambone.Base.{
  String, ◌<>◌, Bool, true, false, Option, none, some, List, [], ◌∷◌, ◌≡◌, ◌↔◌, refl, sym, ap, ◌∙◌,
  arith, ◌==◌, ◌&&◌, ◌||◌, not, if◌then◌else◌, starts_with, split, join, String-discrete,
}
use hambone.Go.{plain, Result, ok, err, Unit₀}
use hambone.Go.FilePath.{clean}
use hambone.Sys.{Os, Output, FileInfo, found}
use hambone.Git.Repository.{seen, is_some}
use hambone.Tests.Machine.{no_such_file, absent, contents_of}

-- One path in the working tree, in the index, in HEAD and in the remote.
pub record Versions : Type 0 where
  pub file : Option String
  pub index : Option String
  pub head : Option String
  pub remote : Option String

pub record Repo : Type 0 where
  pub web : Versions
  pub db : Versions
  -- whether a push gets through
  pub online : Bool

abbrev pub blank : Versions
blank = record { file = none; index = none; head = none; remote = none }

abbrev pub web_path : String
web_path = "i/web/kustomization.yaml"

abbrev pub db_path : String
db_path = "i/db/kustomization.yaml"

abbrev pub at : Repo → String → Versions
at r c = if c == web_path then r.web else if c == db_path then r.db else blank

abbrev pub each : (String → Versions → Versions) → Repo → Repo
each f r = record r { web = f web_path r.web; db = f db_path r.db }

pub at-each :
    (f : String → Versions → Versions) (r : Repo) (c : String)
    → f c blank ≡ blank
    → at (each f r) c ≡ f c (at r c)
at-each f r c h = ground (arith, h)

abbrev pub under : String → String → Bool
under dir c = dir == "." || starts_with c (dir <> "/")

abbrev pub within : String → String → Bool
within dir j = under (clean dir) (clean j)

abbrev pub fine : Output
fine = record { text = ""; error = none }

abbrev pub refused : Output
refused = record { text = ""; error = some (plain "exit status 1") }

abbrev pub same_text : Option String → Option String → Bool
same_text none none = true
same_text none (some b) = false
same_text (some a) none = false
same_text (some a) (some b) = a == b

pub same_text_iff : (a b : Option String) → (same_text a b ≡ true) ↔ (a ≡ b)
same_text_iff none none = (λ h. refl, λ h. refl)
same_text_iff none (some b) = (λ h. cc, λ h. cc)
same_text_iff (some a) none = (λ h. cc, λ h. cc)
same_text_iff (some a) (some b) = (λ h. ground arith, λ h. ground arith)

-- A test of every path below a cleaned directory.
abbrev pub holds : (Versions → Bool) → String → Repo → Bool
holds test dir r =
    (if under dir web_path then test r.web else true)
    && (if under dir db_path then test r.db else true)

holds-at :
    (test : Versions → Bool) (dir : String) (r : Repo) (c : String)
    → test blank ≡ true
    → holds test dir r ≡ true
    → under dir c ≡ true
    → test (at r c) ≡ true
holds-at test dir r c h e w = ground (arith, h, e, w)

holds-of :
    (test : Versions → Bool) (dir : String) (r : Repo)
    → (under dir web_path ≡ true → test r.web ≡ true)
    → (under dir db_path ≡ true → test r.db ≡ true)
    → holds test dir r ≡ true
holds-of test dir r h k = ground (arith, h, k)

web-clean : clean web_path ≡ web_path
unfolding clean split join String-discrete
web-clean = refl

db-clean : clean db_path ≡ db_path
unfolding clean split join String-discrete
db-clean = refl

pub holds_iff :
    (test : Versions → Bool) (dir : String) (r : Repo)
    → test blank ≡ true
    → (holds test (clean dir) r ≡ true)
      ↔ ((j : String) → within dir j ≡ true → test (at r (clean j)) ≡ true)
unfolding String-discrete
holds_iff test dir r h = (
  λ e j w. holds-at test (clean dir) r (clean j) h e w,
  λ e.
      holds-of test (clean dir) r
        (λ w.
          ap (λ c. test (at r c)) (sym web-clean)
          ∙ e web_path (ap (under (clean dir)) web-clean ∙ w))
        (λ w.
          ap (λ c. test (at r c)) (sym db-clean) ∙ e db_path (ap (under (clean dir)) db-clean ∙ w)),
)

abbrev pub head_agrees : Versions → Bool
head_agrees v = same_text (seen v.index v.file) v.head

abbrev pub index_agrees : Versions → Bool
index_agrees v = same_text (seen v.index v.file) v.index

abbrev pub all_known : Versions → Bool
all_known v = is_some v.index || not (is_some v.file)

abbrev pub answer_if : Bool → Output
answer_if b = if b then fine else refused

-- A file can be written at the two paths only.
abbrev pub can_write : String → Bool
can_write c = c == web_path || c == db_path

abbrev pub attempt : Bool → Repo → Repo → Result Unit₀ × Repo
attempt b r' r = if b then (ok tt, r') else (err no_such_file, r)

abbrev pub put : String → String → String → Versions → Versions
put c text c' v = if c' == c then record v { file = some text } else v

abbrev pub add : String → String → Versions → Versions
add dir c v = if under dir c then record v { index = v.file } else v

abbrev pub remove : String → String → Versions → Versions
remove dir c v =
    if under dir c
    then record v { index = none; file = if is_some v.index then none else v.file }
    else v

abbrev pub commit : String → Versions → Versions
commit c v = record v { head = v.index }

abbrev pub push : String → Versions → Versions
push c v = record v { remote = v.head }

abbrev pub push_if : Bool → Repo → Output × Repo
push_if b r = if b then (fine, each push r) else (refused, r)

-- `pull` is run where the remote has nothing new.
abbrev pub run_git : List String → Repo → Output × Repo
run_git [] r = (refused, r)
run_git (a ∷ []) r = if a == "push" then push_if r.online r else (fine, r)
run_git (a ∷ b ∷ []) r = if a == "add" then (fine, each (add (clean b)) r) else (refused, r)
run_git (a ∷ b ∷ c ∷ []) r =
    if a == "commit"
    then (fine, each commit r)
    else if a == "rm"
    then (fine, each (remove (clean c)) r)
    else (refused, r)
run_git (a ∷ b ∷ c ∷ d ∷ rest) r =
    if c == "HEAD"
    then (answer_if (holds head_agrees (clean d) r), r)
    else (answer_if (holds index_agrees (clean d) r), r)

-- The shell knows the script for the directory of "web".
abbrev pub run : String → List String → Repo → Output × Repo
run cmd args r =
    if cmd == "git" then run_git args r else (answer_if (holds all_known (clean "i/web") r), r)

abbrev pub web_dir : FileInfo
web_dir = record { name = "web"; is_dir = true }

abbrev pub repo_os : Os Repo
repo_os = record {
  Cmd = Unit {0};
  Handle = Unit {0};
  chdir = λ dir r. (ok tt, r);
  not_exist = λ path r. (ok (absent (at r (clean path)).file), r);
  read_file = λ path r. (contents_of (at r (clean path)).file, r);
  write_file = λ path text r. attempt (can_write (clean path)) (each (put (clean path) text) r) r;
  mkdir_all = λ path r. (ok tt, r);
  read_dir = λ path r. (ok (web_dir ∷ []), r);
  walk = λ path r. (ok (found "i/web" true ∷ found web_path false ∷ []), r);
  open_file = λ path r. (ok tt, r);
  read_dir_names = λ file n r. (ok none, r);
  close_file = λ file r. (ok tt, r);
  combined_output = run;
  command = λ cmd args r. (tt, r);
  stdout_pipe = λ cmd r. (ok tt, r);
  stderr_pipe = λ cmd r. (ok tt, r);
  stdin_pipe = λ cmd r. (ok tt, r);
  start = λ cmd r. (ok tt, r);
  read_stdout = λ cmd r. ("", r);
  read_stderr = λ cmd r. ("", r);
  write_stdin = λ cmd text r. r;
  wait = λ cmd r. (ok tt, r);
  output_of = λ cmd r. (fine, r);
}
