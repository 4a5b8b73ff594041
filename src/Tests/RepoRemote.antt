-- ===== src/Tests/RepoRemote.antt =====
-- The small repository keeps the laws about the remote too.
use hambone.Base.{
  String, true, false, Option, List, [], ◌∷◌, ◌≡◌, refl, ap, sym, arith, fun_ext, String-discrete,
  Bool-cases, inl, inr, ◌==◌, ◌∙◌,
}
use hambone.Go.FilePath.{clean}
use hambone.Git.Repository.{Store}
use hambone.Git.Repository.Remote.{is_local, IsPushedOnly}
use hambone.Git.Repository.Unpushed.{IsRestorable}
use hambone.Tests.Repo.{Versions, Repo, each, add, remove, commit, repo_os, run_git}
use hambone.Tests.RepoLaws.{store, add-at, remove-at, commit-at, failed_push, repository}

abbrev remote : Repo → String → Option String
remote r = (store r).remote

add-remote : (dir : String) (r : Repo) → remote (each (add dir) r) ≡ remote r
add-remote dir r =
    fun_ext (λ j. ap (λ (v : Versions). v.remote) (add-at dir r (clean j)) ∙ ground arith)

remove-remote : (dir : String) (r : Repo) → remote (each (remove dir) r) ≡ remote r
remove-remote dir r =
    fun_ext (λ j. ap (λ (v : Versions). v.remote) (remove-at dir r (clean j)) ∙ ground arith)

commit-remote : (r : Repo) → remote (each commit r) ≡ remote r
commit-remote r = fun_ext (λ j. ap (λ (v : Versions). v.remote) (commit-at r (clean j)))

git-remote :
    (args : List String) (r : Repo) → is_local args ≡ true → remote (run_git args r).1 ≡ remote r
unfolding String-discrete
git-remote [] r h = refl
git-remote (a ∷ []) r h = elim (Bool-cases (a == "push")) [
  | inl e ↦
      let same : a ≡ "push" = ground arith in
      let no_way : false ≡ true = ap (λ b. is_local (b ∷ [])) (sym same) ∙ h in absurd (cc no_way)
  | inr e ↦ ground arith
]
git-remote (a ∷ b ∷ []) r h = ground (arith, add-remote (clean b) r)
git-remote (a ∷ b ∷ c ∷ []) r h = ground (arith, commit-remote r, remove-remote (clean c) r)
git-remote (a ∷ b ∷ c ∷ d ∷ rest) r h = ground arith

pub pushed_only : IsPushedOnly repo_os repository
unfolding repository String-discrete
pushed_only = record {
  other_commands = git-remote;
  remove_files = λ args r. refl;
  failed_push = λ r {e} h. ap (λ (s : Store). s.remote) (failed_push r h);
}

unfoldable pub restorable : IsRestorable repo_os repository
unfolding repository String-discrete
restorable = record {
  list_store = λ path r. refl;
  remove_store = λ args r. refl;
  reset_store = λ file r e. cc;
  failed_reset = λ file r {e} h. refl;
  checkout_store = λ file r. refl;
  failed_push = λ r {e} h. failed_push r h;
}
