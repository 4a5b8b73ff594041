-- ===== src/Tests/RepoEdges.antt =====
-- Requests over the git adapter on the small repository that depend on what it holds, or that fail.
use hambone.Base.{
  String, [], false, some, ◌≡◌, ◌≢◌, ◌⊎◌, refl, fun_ext, arith, trim_space, String-discrete, split,
  join,
}
use hambone.Go.{Error, err, Result, ok, Unit₀, plain}
use hambone.Go.FilePath.{clean}
use hambone.Pb.{Instance}
use hambone.Helpers.{get_instance_dir_file}
use hambone.State.Cleanup.{run_cleanup_funcs, reverse_slice, reverse_rounds}
use hambone.State.Receiver.{World, machine, run_and_forget}
use hambone.Instances.Requests.{
  apply, apply_call, names_equate, validate, refresh, delete, delete_call, withdraw,
}
use hambone.Git.Commands.{git_pull, ensure_clean_file, rollback_command}
use hambone.Git.Getter.{Vars}
use hambone.Git.Updater as Updater
use hambone.Git.Updater.{WriterCall, WriterFields, compare_old, write_instance}
use hambone.Git.Deleter as Deleter
use hambone.Git.Bare.{bare_server}
use hambone.Git.Repository.Replaced.{Holds, IsConditional, apply-replaces, delete-replaces}
use hambone.Git.Repository.Remote.{remote_of, apply-remote_whole}
use hambone.Git.Repository.Published.{IsPublished}
use hambone.Git.Repository.Unpushed.{PushFails, ready, unpushed, apply-unpushed}
use hambone.Etcd.Adapter.{get_session_and_mutex}
use hambone.Git.Released.{Releases, init-Releases}
use hambone.Tests.Cluster.{Store, cluster, quiet_cluster}
use hambone.Tests.Machine.{no_items, old_named}
use hambone.Tests.Repo.{Repo, repo_os, at}
use hambone.Tests.RepoLaws.{repository}
use hambone.Tests.RepoRemote.{pushed_only, restorable}
use hambone.Tests.RepoRuns.{settings, web_repo, world, web, fields}

abbrev next_web : Instance
next_web = record web { old_instance = some (old_named "web" "x") }

web_remote : (c : String) → (at web_repo c).remote ≡ (at web_repo c).head
web_remote c = ground arith

conditional :
    IsConditional cluster repo_os repository settings no_items "i" "t" next_web
      (old_named "web" "x")
      (world web_repo)
unfolding repository get_instance_dir_file String-discrete clean split join
conditional = record {
  given = refl;
  up_to_date = fun_ext (λ j. web_remote (clean j));
  plain = refl;
  inside = refl;
}

applied :
    (apply
      (machine repo_os)
      no_items
      (bare_server cluster repo_os settings no_items "i" "t")
      false
      next_web
      (world web_repo)).0
    ≡ ok tt
unfolding apply apply_call Updater.init String-discrete git_pull ensure_clean_file clean
    get_instance_dir_file split join compare_old write_instance run_and_forget validate
    Updater.commit rollback_command refresh run_cleanup_funcs reverse_slice reverse_rounds
    trim_space
applied = refl

deleted :
    (delete
      (machine repo_os)
      no_items
      (bare_server cluster repo_os settings no_items "i" "t")
      next_web
      (world web_repo)).0
    ≡ ok tt
unfolding delete delete_call Deleter.init String-discrete git_pull ensure_clean_file clean
    get_instance_dir_file split join compare_old run_and_forget withdraw Deleter.commit
    run_cleanup_funcs reverse_slice reverse_rounds trim_space
deleted = refl

apply-replaces_example :
    Holds repo_os repository "i/web/kustomization.yaml" (old_named "web" "x") web_repo
unfolding get_instance_dir_file
apply-replaces_example =
    apply-replaces cluster repo_os repository settings no_items "i" "t" next_web
      (old_named "web" "x") (world web_repo) conditional applied

delete-replaces_example :
    Holds repo_os repository "i/web/kustomization.yaml" (old_named "web" "x") web_repo
unfolding get_instance_dir_file
delete-replaces_example =
    delete-replaces cluster repo_os repository settings no_items "i" "t" next_web
      (old_named "web" "x") (world web_repo) conditional deleted

-- "web" is committed, and no push gets through.
abbrev offline : Repo
offline = record web_repo { online = false }

abbrev try_push : Result Unit₀ × Instance × World Store Repo Vars
try_push =
    apply (machine repo_os) no_items (bare_server cluster repo_os settings no_items "i" "t") false
      web (world offline)

abbrev started : Result Unit₀ × Repo
started = ready cluster repo_os repository restorable settings no_items "i" "t" web (world offline)

starts : started.0 ≡ ok tt
unfolding get_instance_dir_file git_pull ensure_clean_file String-discrete write_instance clean
    split join compare_old
starts = refl

push_fails : PushFails repo_os repository restorable fields "web" started.1 (plain "exit status 1")
unfolding restorable get_instance_dir_file git_pull ensure_clean_file String-discrete write_instance
    clean split join compare_old
push_fails = record { changed = λ h. cc; add_ok = refl; commit_ok = refl; push_err = refl }

apply-unpushed_example :
    (try_push.0 ≢ ok tt)
    × (repository.store try_push.2.os
        ≡ unpushed repo_os repository restorable fields "web" started.1)
unfolding names_equate String-discrete
apply-unpushed_example =
    apply-unpushed cluster repo_os repository restorable settings no_items "i" "t" web
      (world offline) refl refl starts push_fails

apply-remote_whole_example :
    (remote_of repo_os repository try_push.2.os ≡ remote_of repo_os repository offline)
    ⊎ (((e : Error) → try_push.0 ≢ err e)
        × IsPublished repo_os repository fields.instance_dir try_push.2.os)
unfolding repository get_instance_dir_file String-discrete
apply-remote_whole_example =
    apply-remote_whole cluster repo_os repository pushed_only settings no_items "i" "t" web
      (world offline) refl

-- An updater that takes the lock "git".
abbrev locking : WriterCall Store Repo
locking = record {
  world = record (world web_repo) { vars = record { endpoints = []; etcd_locks_git_key = "git" } };
  shared = web;
  self = record { fields = fields; cleanup_funcs = [] };
}

init-Releases_example :
    Releases cluster (some (tt, tt, "git-lock")) (Updater.init cluster repo_os locking).1
    × Releases cluster (some (tt, tt, "git-lock")) (Deleter.init cluster repo_os locking).1
unfolding get_session_and_mutex String-discrete
init-Releases_example = init-Releases cluster repo_os quiet_cluster locking refl
