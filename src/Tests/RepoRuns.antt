-- ===== src/Tests/RepoRuns.antt =====
-- Whole requests over the git adapter on the small repository.
use hambone.Base.{
  String, true, false, none, some, [], ◌≡◌, refl, ap, arith, fun_ext, starts_with, Bool-cases, sym,
  subst, ◌∙◌, ◌==◌, inl, inr, String-discrete, split, join,
}
use hambone.Base.Int.{pos}
use hambone.Go.{Result, ok, err, Unit₀}
use hambone.Go.FilePath.{clean, rel, dir}
use hambone.Pb.{Instance, InstanceList, GetOptions}
use hambone.Helpers.{get_instance_dir_file}
use hambone.State.Cleanup.{run_cleanup_funcs, reverse_slice, reverse_rounds}
use hambone.State.Receiver.{World, machine, run_and_forget}
use hambone.Instances.Requests.{
  apply, apply_call, names_equate, validate, refresh, delete, delete_call, withdraw, get,
}
use hambone.Git.Commands.{
  git_pull, ensure_clean_file, rollback_command, untracked_uncommitted_changes_error,
}
use hambone.Git.Getter.{Vars}
use hambone.Git.Updater as Updater
use hambone.Git.Updater.{WriterFields, compare_old, write_instance}
use hambone.Git.Deleter as Deleter
use hambone.Git.Engine.{Settings}
use hambone.Git.Bare.{bare_server, fields_for, examined}
use hambone.Git.Repository.{seen}
use hambone.Git.Repository.Written.{contents, IsUpToDate}
use hambone.Git.Repository.Published.{
  CommittedFrom, published, IsPlainInstance, after_init, apply-published,
}
use hambone.Git.Repository.Lost.{IsFirst, IsOutsideGit, apply-new_lost, apply-again_refused}
use hambone.Git.Repository.Removed.{without, delete-published}
use hambone.Git.Repository.ReadBack.{get-written}
use hambone.Git.WrittenFiles.{IsLoaded}
use hambone.Git.Getter as Getter
use hambone.Git.Loader.{load_named, load_instance, visit_all}
use hambone.Tests.Cluster.{Store, cluster}
use hambone.Tests.Machine.{no_items, differ}
use hambone.Tests.Repo.{Repo, Versions, blank, repo_os, at, db_path}
use hambone.Tests.RepoLaws.{repository}

abbrev pub settings : Settings
settings = record { working_dir = "."; endpoints_string = ""; etcd_locks_git_key = ""; branch = "" }

abbrev pub versions : String → Versions
versions t = record { file = some t; index = some t; head = some t; remote = some t }

-- "db" is committed and pushed, and "web" is not there, or is there with the yaml "x".
abbrev empty_repo : Repo
empty_repo = record { web = blank; db = versions "d"; online = true }

abbrev pub web_repo : Repo
web_repo = record { web = versions "x"; db = versions "d"; online = true }

abbrev pub world : Repo → World Store Repo Vars
world r = record { etcd = []; os = r; vars = record { endpoints = []; etcd_locks_git_key = "" } }

abbrev pub web : Instance
web = record {
  name = "web";
  kustomization_yaml = "y";
  statuses = [];
  statuses_error_message = "";
  old_instance = none;
  files = [];
}

abbrev apply_web : Repo → Result Unit₀ × Instance × World Store Repo Vars
apply_web r =
    apply (machine repo_os) no_items (bare_server cluster repo_os settings no_items "i" "t") false
      web (world r)

abbrev after : Repo → World Store Repo Vars
after r = (apply_web r).2

-- The second `Apply` of "web" publishes it, the first does not.
applied :
    (apply_web web_repo ≡ (ok tt, web, world (record web_repo { web = versions "y" })))
    × (apply_web empty_repo
        ≡ (ok tt, web, world (record empty_repo { web = record blank { file = some "y" } })))
unfolding apply apply_call Updater.init String-discrete git_pull ensure_clean_file clean
    get_instance_dir_file split join compare_old write_instance run_and_forget validate
    Updater.commit rollback_command refresh run_cleanup_funcs reverse_slice reverse_rounds
applied = (refl, refl)

abbrev Answer : Type 0
Answer = Result Unit₀ × Instance × World Store Repo Vars

done : {p q : Answer} → p ≡ q → p.0 ≡ q.0
done e = ap (λ (p : Answer). p.0) e

web-clean :
    IsPlainInstance cluster repo_os repository settings no_items "i" "t" web (world web_repo)
unfolding repository
web-clean = tt

apply-published_example :
    (contents repo_os repository (after web_repo).os "i/web/kustomization.yaml" ≡ some "y")
    × CommittedFrom repo_os repository
        (fields_for cluster repo_os settings no_items "i" "t" web)
        (after_init cluster repo_os repository settings no_items "i" "t" web (world web_repo))
        (after web_repo).os
unfolding get_instance_dir_file
apply-published_example =
    apply-published cluster repo_os repository settings no_items "i" "t" web (world web_repo)
      web-clean (done applied.0)

empty_remote : (c : String) → (at empty_repo c).remote ≡ (at empty_repo c).head
empty_remote c = ground arith

empty_head :
    (c : String) → seen (at empty_repo c).index (at empty_repo c).file ≡ (at empty_repo c).head
empty_head c = ground arith

db_elsewhere : starts_with db_path "i/web/" ≡ false
db_elsewhere = refl

empty_new :
    (c : String)
    → starts_with c "i/web/" ≡ true
    → ((at empty_repo c).index ≡ none) × ((at empty_repo c).head ≡ none)
empty_new c h = elim (Bool-cases (c == db_path)) [
  | inl e ↦
      let same : c ≡ db_path = ground arith in
      let no_way : false ≡ true =
        sym db_elsewhere ∙ (ap (λ t. starts_with t "i/web/") (sym same) ∙ h) in
      absurd (cc no_way)
  | inr e ↦ ground arith
]

first : IsFirst cluster repo_os repository settings no_items "i" "t" web (world empty_repo)
unfolding repository get_instance_dir_file String-discrete clean split join
first = record {
  plain = refl;
  here = refl;
  up_to_date = fun_ext (λ j. empty_remote (clean j));
  committed = λ j w. empty_head (clean j);
  new = λ j w. empty_new (clean j) w;
  file_within = refl;
  files_within = tt;
}

abbrev pub fields : WriterFields
fields = fields_for cluster repo_os settings no_items "i" "t" web

apply-new_lost_example :
    (repository.store (after empty_repo).os ≡ repository.store empty_repo)
    × IsOutsideGit repo_os repository fields.instance_dir (repository.store (after empty_repo).os)
apply-new_lost_example =
    apply-new_lost cluster repo_os repository settings no_items "i" "t" web (world empty_repo) first
      (done applied.1)

web-plain :
    IsPlainInstance cluster repo_os repository settings no_items "i" "t" web (world empty_repo)
unfolding repository
web-plain = tt

unlocked : (after empty_repo).vars.etcd_locks_git_key ≡ ""
unlocked = ap (λ (p : Answer). p.2.vars.etcd_locks_git_key) applied.1

pulled : (git_pull repo_os (after empty_repo).os).0 ≡ ok tt
unfolding git_pull String-discrete
pulled = refl

apply-again_refused_example :
    (apply
      (machine repo_os)
      no_items
      (bare_server cluster repo_os settings no_items "i" "t")
      false
      web
      (after empty_repo)).0
    ≡ err untracked_uncommitted_changes_error
unfolding names_equate repository get_instance_dir_file String-discrete
apply-again_refused_example =
    apply-again_refused cluster repo_os repository settings no_items "i" "t" web (world empty_repo)
      first web-plain (done applied.1) web refl refl unlocked pulled

abbrev delete_web : Answer
delete_web =
    delete (machine repo_os) no_items (bare_server cluster repo_os settings no_items "i" "t") web
      (world web_repo)

deleted : delete_web ≡ (ok tt, web, world (record web_repo { web = blank }))
unfolding delete delete_call Deleter.init String-discrete git_pull ensure_clean_file clean
    get_instance_dir_file split join compare_old run_and_forget withdraw Deleter.commit
    run_cleanup_funcs reverse_slice reverse_rounds
deleted = refl

delete-published_example :
    (repository.store delete_web.2.os
      ≡ published repo_os repository (
          without repo_os repository fields.instance_dir (
            repository.store
              (examined cluster repo_os settings no_items "i" "t" web (world web_repo).os).1)))
    × ((j : String)
        → repository.within fields.instance_dir j ≡ true
        → contents repo_os repository delete_web.2.os j ≡ none)
unfolding repository get_instance_dir_file String-discrete
delete-published_example =
    delete-published cluster repo_os repository settings no_items "i" "t" web (world web_repo) refl
      (done deleted)

abbrev options : GetOptions
options = record { name = "web"; start = pos 0; stop = pos 0; exclude_statuses = true }

after_remote :
    (c : String)
    → (at (record web_repo { web = versions "y" }) c).remote
      ≡ (at (record web_repo { web = versions "y" }) c).head
after_remote c = ground arith

up_to_date : IsUpToDate repo_os repository (after web_repo).os
unfolding repository
up_to_date =
    subst (λ (p : Answer). (repository.store p.2.os).remote ≡ (repository.store p.2.os).head)
      (sym applied.0) (fun_ext (λ j. after_remote (clean j)))

abbrev get_web : World Store Repo Vars → Result Unit₀ × InstanceList × World Store Repo Vars
get_web =
    get (machine repo_os) no_items (bare_server cluster repo_os settings no_items "i" "t") options

found_web : (get_web (world (record web_repo { web = versions "y" }))).0 ≡ ok tt
unfolding get Getter.run git_pull String-discrete Getter.load load_named load_instance clean
    get_instance_dir_file split join visit_all rel dir run_and_forget run_cleanup_funcs
    reverse_slice reverse_rounds
found_web = refl

got : (get_web (after web_repo)).0 ≡ ok tt
got = ap (λ (p : Answer). (get_web p.2).0) applied.0 ∙ found_web

get-written_example : IsLoaded repo_os repository.files "web" "y" (get_web (after web_repo)).1
unfolding repository String-discrete
get-written_example =
    get-written cluster repo_os repository settings no_items "i" "t" web options (world web_repo)
      web-clean refl (differ "web" "" refl) refl (done applied.0) up_to_date got
