-- ===== src/Tests/RepoLaws.antt =====
-- The small repository keeps the laws of git.
use hambone.Base.{
  String, Bool, true, false, Option, none, some, List, [], ◌∷◌, ◌≡◌, ◌↔◌, refl, ap, ◌∙◌, arith,
  ◌==◌, ◌&&◌, ◌||◌, if◌then◌else◌, String-discrete, Bool-cases, inl, inr, not, subst,
}
use hambone.Go.{Error, ok}
use hambone.Go.FilePath.{clean}
use hambone.Sys.{FileInfo}
use hambone.Git.Repository.{Store, IsRepository, Lists, seen, is_some}
use hambone.Git.WrittenFiles.{IsFileSystem}
use hambone.Tests.Machine.{present, read_contents}
use hambone.Tests.Repo.{
  Versions, Repo, blank, at, each, at-each, under, within, same_text_iff, holds, holds_iff,
  head_agrees, index_agrees, all_known, answer_if, can_write, attempt, put, add, remove, commit,
  push, repo_os, run_git, web_dir, push_if,
}

abbrev pub contents : Repo → String → Option String
contents r j = (at r (clean j)).file

abbrev pub store : Repo → Store
store r = record {
  index = λ j. (at r (clean j)).index;
  head = λ j. (at r (clean j)).head;
  remote = λ j. (at r (clean j)).remote;
}

store-eq :
    (a b : Store)
    → ((j : String) → a.index j ≡ b.index j)
    → ((j : String) → a.head j ≡ b.head j)
    → ((j : String) → a.remote j ≡ b.remote j)
    → a ≡ b
store-eq a b h k l = λ i. record { index = λ j. h j i; head = λ j. k j i; remote = λ j. l j i }

put-at :
    (c text : String) (r : Repo) (c' : String)
    → can_write c ≡ true
    → at (each (put c text) r) c' ≡ put c text c' (at r c')
put-at c text r c' h = ground (arith, h)

pub add-at : (dir : String) (r : Repo) (c : String) → at (each (add dir) r) c ≡ add dir c (at r c)
add-at dir r c = at-each (add dir) r c (ground arith)

pub remove-at :
    (dir : String) (r : Repo) (c : String) → at (each (remove dir) r) c ≡ remove dir c (at r c)
remove-at dir r c = at-each (remove dir) r c (ground arith)

pub commit-at : (r : Repo) (c : String) → at (each commit r) c ≡ commit c (at r c)
commit-at r c = at-each commit r c refl

pub push-at : (r : Repo) (c : String) → at (each push r) c ≡ push c (at r c)
push-at r c = at-each push r c refl

put-store :
    (c text : String) (r : Repo) → can_write c ≡ true → store (each (put c text) r) ≡ store r
put-store c text r h =
    store-eq (store (each (put c text) r)) (store r)
      (λ j. ap (λ (v : Versions). v.index) (put-at c text r (clean j) h) ∙ ground arith)
      (λ j. ap (λ (v : Versions). v.head) (put-at c text r (clean j) h) ∙ ground arith)
      (λ j. ap (λ (v : Versions). v.remote) (put-at c text r (clean j) h) ∙ ground arith)

pub write_store : (p text : String) (r : Repo) → store (repo_os.write_file p text r).1 ≡ store r
write_store p text r = elim (Bool-cases (can_write (clean p))) [
  | inl e ↦
      ap (λ b. store (attempt b (each (put (clean p) text) r) r).1) e ∙ put-store (clean p) text r e
  | inr e ↦ ap (λ b. store (attempt b (each (put (clean p) text) r) r).1) e
]

pub write_contents :
    (p text j : String) (r : Repo)
    → (repo_os.write_file p text r).0 ≡ ok tt
    → contents (repo_os.write_file p text r).1 j
      ≡ (if clean j == clean p then some text else contents r j)
write_contents p text j r h = elim (Bool-cases (can_write (clean p))) [
  | inl e ↦ ground (arith, put-at (clean p) text r (clean j) e)
  | inr e ↦ absurd (ground arith)
]

pub add_store :
    (dir : String) (r : Repo)
    → store (each (add (clean dir)) r)
      ≡ record (store r) { index = λ j. if within dir j then contents r j else (store r).index j }
add_store dir r =
    store-eq (store (each (add (clean dir)) r)) _
      (λ j. ap (λ (v : Versions). v.index) (add-at (clean dir) r (clean j)) ∙ ground arith)
      (λ j. ap (λ (v : Versions). v.head) (add-at (clean dir) r (clean j)) ∙ ground arith)
      (λ j. ap (λ (v : Versions). v.remote) (add-at (clean dir) r (clean j)) ∙ ground arith)

pub remove_store :
    (dir : String) (r : Repo)
    → store (each (remove (clean dir)) r)
      ≡ record (store r) { index = λ j. if within dir j then none else (store r).index j }
remove_store dir r =
    store-eq (store (each (remove (clean dir)) r)) _
      (λ j. ap (λ (v : Versions). v.index) (remove-at (clean dir) r (clean j)) ∙ ground arith)
      (λ j. ap (λ (v : Versions). v.head) (remove-at (clean dir) r (clean j)) ∙ ground arith)
      (λ j. ap (λ (v : Versions). v.remote) (remove-at (clean dir) r (clean j)) ∙ ground arith)

pub commit_store : (r : Repo) → store (each commit r) ≡ record (store r) { head = (store r).index }
commit_store r =
    store-eq (store (each commit r)) _ (λ j. ap (λ (v : Versions). v.index) (commit-at r (clean j)))
      (λ j. ap (λ (v : Versions). v.head) (commit-at r (clean j)))
      (λ j. ap (λ (v : Versions). v.remote) (commit-at r (clean j)))

pub push_store : (r : Repo) → store (each push r) ≡ record (store r) { remote = (store r).head }
push_store r =
    store-eq (store (each push r)) _ (λ j. ap (λ (v : Versions). v.index) (push-at r (clean j)))
      (λ j. ap (λ (v : Versions). v.head) (push-at r (clean j)))
      (λ j. ap (λ (v : Versions). v.remote) (push-at r (clean j)))

answer-fine : (b : Bool) → ((answer_if b).error ≡ none) ↔ (b ≡ true)
answer-fine true = (λ h. refl, λ h. refl)
answer-fine false = (λ h. cc, λ h. cc)

-- A test of the paths below a directory, as the answer of a command.
pub answer-holds :
    (test : Versions → Bool) (P : Versions → Type 0) (dir : String) (r : Repo)
    → test blank ≡ true
    → ((v : Versions) → (test v ≡ true) ↔ P v)
    → ((answer_if (holds test (clean dir) r)).error ≡ none)
      ↔ ((j : String) → within dir j ≡ true → P (at r (clean j)))
answer-holds test P dir r h iff = (
  λ e j w.
      (iff (at r (clean j))).0
        ((holds_iff test dir r h).0 ((answer-fine (holds test (clean dir) r)).0 e) j w),
  λ p.
      (answer-fine (holds test (clean dir) r)).1
        ((holds_iff test dir r h).1 (λ j w. (iff (at r (clean j))).1 (p j w))),
)

all_known_iff : (v : Versions) → (all_known v ≡ true) ↔ (v.index ≡ none → v.file ≡ none)
all_known_iff v = go v.index v.file
  where
    go : (i f : Option String) → ((is_some i || not (is_some f)) ≡ true) ↔ (i ≡ none → f ≡ none)
    go none none = (λ h e. refl, λ h. refl)
    go none (some t) = (λ h e. cc, λ h. cc (h refl))
    go (some s) f = (λ h e. cc, λ h. refl)

abbrev pub file_system : IsFileSystem repo_os
file_system = record {
  contents = contents;
  write_contents = write_contents;
  mkdir_contents = λ p j r. refl;
  not_exist_contents = λ p j r. refl;
  not_exist_ok = λ p text r h e. present _ text _ h e;
  read_ok = λ p text r h. read_contents _ text h;
}

pub add_contents : (dir j : String) (r : Repo) → contents (each (add dir) r) j ≡ contents r j
add_contents dir j r = ap (λ (v : Versions). v.file) (add-at dir r (clean j)) ∙ ground arith

pub remove_contents :
    (dir j : String) (r : Repo)
    → contents (each (remove (clean dir)) r) j
      ≡ (if within dir j && is_some ((store r).index j) then none else contents r j)
remove_contents dir j r =
    ap (λ (v : Versions). v.file) (remove-at (clean dir) r (clean j)) ∙ ground arith

lists_web : (name : String) → (name == "web") ≡ true → "web" ≡ name
lists_web name h = ground arith

only_web : (dir : String) → (dir == "i/web") ≡ true → "i/web" ≡ dir
only_web dir h = ground arith

pub listed_web :
    (name : String) (list : List FileInfo)
    → (name == "web") ≡ true
    → ok (web_dir ∷ []) ≡ ok list
    → Lists name list
listed_web name list h e =
    let same : web_dir ∷ [] ≡ list = cc in subst (Lists name) same (inl (refl, lists_web name h))

pub others_none :
    (dir : String) (r : Repo)
    → (dir == "i/web") ≡ true
    → ((answer_if (holds all_known (clean "i/web") r)).error ≡ none)
      ↔ ((j : String) → within dir j ≡ true → (store r).index j ≡ none → contents r j ≡ none)
others_none dir r h =
    subst
      (λ d.
        ((answer_if (holds all_known (clean "i/web") r)).error ≡ none)
        ↔ ((j : String) → within d j ≡ true → (store r).index j ≡ none → contents r j ≡ none))
      (only_web dir h)
      (answer-holds all_known (λ v. v.index ≡ none → v.file ≡ none) "i/web" r refl all_known_iff)

pub diff_head :
    (dir : String) (r : Repo)
    → ((answer_if (holds head_agrees (clean dir) r)).error ≡ none) ↔ (
        (j : String)
        → within dir j ≡ true
        → seen ((store r).index j) (contents r j) ≡ (store r).head j)
diff_head dir r =
    answer-holds head_agrees (λ v. seen v.index v.file ≡ v.head) dir r refl
      (λ v. same_text_iff (seen v.index v.file) v.head)

pub diff_store : (args : List String) (r : Repo) → (run_git ("diff" ∷ args) r).1 ≡ r
unfolding String-discrete
diff_store [] r = refl
diff_store (b ∷ []) r = refl
diff_store (b ∷ c ∷ []) r = refl
diff_store (b ∷ c ∷ d ∷ rest) r = ground arith

pub pushed :
    (r : Repo)
    → (run_git ("push" ∷ []) r).0.error ≡ none
    → store (run_git ("push" ∷ []) r).1 ≡ record (store r) { remote = (store r).head }
unfolding String-discrete
pushed r e = elim (Bool-cases r.online) [
  | inl on ↦ ap (λ b. store (push_if b r).1) on ∙ push_store r
  | inr off ↦ absurd (ground arith)
]

pub push_contents : (j : String) (r : Repo) → contents (run_git ("push" ∷ []) r).1 j ≡ contents r j
unfolding String-discrete
push_contents j r = elim (Bool-cases r.online) [
  | inl on ↦
      ap (λ b. contents (push_if b r).1 j) on ∙ ap (λ (v : Versions). v.file) (push-at r (clean j))
  | inr off ↦ ap (λ b. contents (push_if b r).1 j) off
]

pub failed_push :
    (r : Repo) {e : Error}
    → (run_git ("push" ∷ []) r).0.error ≡ some e
    → store (run_git ("push" ∷ []) r).1 ≡ store r
unfolding String-discrete
failed_push r {e} h = elim (Bool-cases r.online) [
  | inl on ↦ absurd (ground (arith, on))
  | inr off ↦ ap (λ b. store (push_if b r).1) off
]

unfoldable pub repository : IsRepository repo_os
unfolding String-discrete clean
repository = record {
  files = file_system;
  store = store;
  within = within;
  is_plain = λ dir. dir == "i/web";
  is_name = λ name. name == "web";
  is_here = λ dir. dir == ".";
  within_clean = λ dir i j e. ap (under (clean dir)) e;
  write_store = write_store;
  mkdir_store = λ p r. refl;
  not_exist_store = λ p r. refl;
  read_store = λ p r. refl;
  read_contents = λ p j r. refl;
  read_dir_contents = λ p j r. refl;
  read_dir_lists = λ dir name text r {list} h held e. listed_web name list h e;
  pull_store = λ r u. refl;
  pull_contents = λ j r u. refl;
  diff_store = λ args r. ap store (diff_store args r);
  diff_contents = λ args j r. ap (λ x. contents x j) (diff_store args r);
  diff_head = λ dir r. (diff_head dir r).0;
  diff_head_here = λ dir r here. (diff_head dir r).1;
  diff_index = λ dir r.
      answer-holds index_agrees (λ v. seen v.index v.file ≡ v.index) dir r refl
        (λ v. same_text_iff (seen v.index v.file) v.index);
  others_store = λ dir r plain. refl;
  others_contents = λ dir j r plain. refl;
  others_none = others_none;
  add_store = λ dir r e. add_store dir r;
  add_contents = λ dir j r. add_contents (clean dir) j r;
  commit_store = λ message r e. commit_store r;
  commit_contents = λ message j r. ap (λ (v : Versions). v.file) (commit-at r (clean j));
  push_store = λ r e. pushed r e;
  push_contents = λ j r. push_contents j r;
  rm_store = λ dir r e. remove_store dir r;
  rm_contents = λ dir j r e. remove_contents dir j r;
}
