-- ===== src/Tests/GitRuns.antt =====
-- Runs of the git adapter.
use hambone.State.Cleanup as Cleanup
use hambone.Base.{◌≡◌, ◌≢◌, ◌⊎◌, refl, true, false, none, [], ◌∷◌, String-discrete}
use hambone.Go.{plain, ok}
use hambone.Helpers.{get_instance_dir_file}
use hambone.State.Receiver.{World, machine, run_and_forget}
use hambone.Instances.Exec.{pipe_kustomize_to_kubectl}
use hambone.Instances.Statuses.{load_statuses, append_statuses}
use hambone.Instances.Requests.{
  apply, apply_call, names_equate, validate, refresh, withdraw, delete_call,
}
use hambone.Git.Commands.{git_pull, ensure_clean_file, run_command, rollback_command}
use hambone.Git.Getter.{Vars}
use hambone.Git.Updater as Updater
use hambone.Git.Updater.{
  WriterFields, WriterCall, prepare, compare_old, write_files, write_instance, commit_files,
}
use hambone.Git.Deleter as Deleter
use hambone.Git.Deleter.{delete_files}
use hambone.Git.Cleanup.{cleanup_error}
use hambone.Git.Engine.{Settings}
use hambone.Git.Contract.{git_server, delete_call-swallows}
use hambone.Git.Outcome.{Ran, diff_args, apply_args}
use hambone.Git.Apply.{accepted, apply-pushed}
use hambone.Tests.Cluster.{Store, cluster}
use hambone.Tests.Machine.{Box, box_os, new_box, no_items, web}

abbrev settings : Settings
settings = record { working_dir = "."; endpoints_string = ""; etcd_locks_git_key = ""; branch = "" }

abbrev fields : WriterFields
fields = record {
  instance_dir = "i/web";
  instance_file = "i/web/kustomization.yaml";
  working_dir = ".";
}

-- A repository that holds "web", and one that also is used by kubectl in vain.
abbrev web_box : Box
web_box = record {
  files = record { key = "i/web/kustomization.yaml"; value = "x" } ∷ [];
  log = [];
  kubectl_works = false;
}

abbrev world : Box → World Store Box Vars
world box = record {
  etcd = [];
  os = box;
  vars = record { endpoints = []; etcd_locks_git_key = "" };
}

abbrev deleter : WriterCall Store Box
deleter = record {
  world = world web_box;
  shared = web;
  self = record { fields = fields; cleanup_funcs = [] };
}

delete_call-swallows_example :
    let server = git_server cluster box_os settings "i" "t" false true in
    let tried = withdraw (machine box_os) no_items server (Deleter.init cluster box_os deleter).1 in
    delete_call (machine box_os) no_items server deleter
    ≡ (ok tt, (run_and_forget cleanup_error tried.1).1)
unfolding Deleter.init Updater.lock_if_wanted withdraw pipe_kustomize_to_kubectl git_pull
    ensure_clean_file run_command compare_old String-discrete run_and_forget
    Cleanup.run_cleanup_funcs Cleanup.reverse_slice Cleanup.reverse_rounds
delete_call-swallows_example =
    delete_call-swallows cluster box_os settings no_items "i" "t" false true deleter
      (plain "exit status 1") refl refl

apply-pushed_example :
    let c =
      accepted cluster box_os settings no_items "i" "t" false true false web (world new_box) in
    let (changes, o₁) = box_os.combined_output "git" (diff_args box_os ".") c.world.os in
    let o₂ = (Updater.commit cluster box_os false c).1.world.os in
    ((changes.error ≡ none) × (o₂ ≡ o₁))
    ⊎ ((changes.error ≢ none)
        × Ran box_os (apply_args box_os false c.self.fields.instance_dir c.shared.name) o₁ o₂)
unfolding apply apply_call names_equate validate refresh load_statuses append_statuses
    pipe_kustomize_to_kubectl Updater.init Updater.lock_if_wanted git_pull ensure_clean_file
    run_command compare_old write_files write_instance Updater.commit commit_files rollback_command
    String-discrete get_instance_dir_file run_and_forget Cleanup.run_cleanup_funcs
    Cleanup.reverse_slice Cleanup.reverse_rounds
apply-pushed_example =
    apply-pushed cluster box_os settings no_items "i" "t" false true false web (world new_box) refl
