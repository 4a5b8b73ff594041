-- ===== src/Tests/RepoAgain.antt =====
-- A request over the git adapter that is made again, when its commit was never pushed.
use hambone.Base.{
  String, true, false, some, ◌≡◌, refl, ap, arith, trim_space, String-discrete, split, join,
}
use hambone.Go.{Result, ok, Unit₀}
use hambone.Go.FilePath.{clean}
use hambone.Pb.{Instance}
use hambone.Helpers.{get_instance_dir_file}
use hambone.State.Cleanup.{run_cleanup_funcs, reverse_slice, reverse_rounds}
use hambone.State.Receiver.{World, machine, run_and_forget}
use hambone.Instances.Requests.{apply, apply_call, validate, refresh}
use hambone.Git.Commands.{git_pull, ensure_clean_file, rollback_command}
use hambone.Git.Getter.{Vars}
use hambone.Git.Updater as Updater
use hambone.Git.Updater.{compare_old, write_instance}
use hambone.Git.Bare.{bare_server}
use hambone.Git.Repository.{seen}
use hambone.Git.Repository.Written.{Unchanged}
use hambone.Git.Repository.Repeated.{IsLeftBehind, apply-not_pushed}
use hambone.Tests.Cluster.{Store, cluster}
use hambone.Tests.Machine.{no_items}
use hambone.Tests.Repo.{Repo, repo_os, at}
use hambone.Tests.RepoLaws.{repository}
use hambone.Tests.RepoRuns.{settings, versions, world, web}

-- The yaml "y" of "web" is committed, and the remote has "x".
abbrev ahead : Repo
ahead = record {
  web = record (versions "y") { remote = some "x" };
  db = versions "d";
  online = true;
}

abbrev again : Result Unit₀ × Instance × World Store Repo Vars
again =
    apply (machine repo_os) no_items (bare_server cluster repo_os settings no_items "i" "t") false
      web (world ahead)

repeated : again.0 ≡ ok tt
unfolding apply apply_call Updater.init String-discrete git_pull ensure_clean_file clean
    get_instance_dir_file split join compare_old write_instance run_and_forget validate
    Updater.commit rollback_command refresh run_cleanup_funcs reverse_slice reverse_rounds
    trim_space
repeated = refl

ahead_head : (c : String) → seen (at ahead c).index (at ahead c).file ≡ (at ahead c).head
ahead_head c = ground arith

left_behind : IsLeftBehind cluster repo_os repository settings no_items "i" "t" web (world ahead)
unfolding repository get_instance_dir_file String-discrete clean split join git_pull
left_behind = record {
  plain = refl;
  here = refl;
  pull_idle = (refl, λ j. refl);
  committed = λ j w. ahead_head (clean j);
  in_place = (λ j e. ap (λ c. (at ahead c).file) e, tt);
}

apply-not_pushed_example : Unchanged repo_os repository ahead again.2.os
apply-not_pushed_example =
    apply-not_pushed cluster repo_os repository settings no_items "i" "t" web (world ahead)
      left_behind repeated
