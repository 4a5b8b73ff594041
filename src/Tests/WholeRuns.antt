-- ===== src/Tests/WholeRuns.antt =====
-- Runs of whole requests over the etcd adapter.
use hambone.Etcd.Getter as Getter
use hambone.State.Cleanup as Cleanup
use hambone.Base.Int.{pos}
use hambone.Etcd.ReadBack.{get-applied}
use hambone.Etcd.Getter.{run}
use hambone.Etcd.Getter.Run.{instance_named}
use hambone.Base.{◌≡◌, refl, [], ◌∷◌, true, false, none, some, String-discrete, contains}
use hambone.Go.{ok}
use hambone.Pb.{OldInstance, GetOptions}
use hambone.Helpers.{mkdir_file}
use hambone.Etcd.Lawful.{find}
use hambone.Etcd.Adapter.{
  get_instance_key, get_file_key, get_session_and_mutex,
  old_instance_equals_current_instance_if_set, write_files,
}
use hambone.Etcd.Updater as Updater
use hambone.Etcd.Updater.{WriterCall}
use hambone.Etcd.Deleter as Deleter
use hambone.Etcd.Server.{etcd_server}
use hambone.Instances.Exec.{pipe_kustomize_to_kubectl}
use hambone.Instances.Statuses.{append_statuses, load_statuses}
use hambone.Instances.Requests.{
  names_equate, validate, withdraw, apply_call, delete_call, apply, delete, refresh, get,
}
use hambone.Etcd.Delete.{delete-removed}
use hambone.Etcd.Success.{apply-succeeds}
use hambone.Etcd.Reliable.{IsReliable}
use hambone.Tests.Cluster.{cluster, lawful_cluster, quiet_cluster}
use hambone.Tests.Machine.{box_os, no_items, web, web_after, old_named, differ}
use hambone.Tests.Setup.{settings, os, server, empty_world, broken_world, full_world}

pub reliable : IsReliable cluster box_os
reliable = record {
  new_client_ok = λ es s. refl;
  key_exists_ok = λ c k s. refl;
  get_ok = λ c k s. refl;
  put_ok = λ c k v s. refl;
  with_timeout_ok = λ s. refl;
  new_session_ok = λ c x s. refl;
  lock_ok = λ m s. refl;
  quiet = quiet_cluster;
  mkdir_all_ok = λ path box. refl;
  write_file_ok = λ path contents box. refl;
}

-- The OldInstance that "web" in the cluster is compared with.
old_web-Fresh :
    (old : OldInstance)
    → (web_after (old_named "web" "x")).old_instance ≡ some old
    → ("web" ≡ old.name)
      × (find "hambone_instance_web" broken_world.etcd ≡ some old.kustomization_yaml)
unfolding String-discrete
old_web-Fresh old h = let same : old_named "web" "x" ≡ old = cc in rw (← same) (refl, refl)

apply-succeeds_example :
    (apply os no_items
      (etcd_server cluster box_os settings "instances" "templates" false false)
      false
      (web_after (old_named "web" "x"))
      broken_world).0
    ≡ ok tt
unfolding get_instance_key contains
apply-succeeds_example =
    apply-succeeds cluster lawful_cluster box_os reliable settings no_items "instances" "templates"
      false (web_after (old_named "web" "x")) broken_world refl old_web-Fresh

delete-removed_example :
    find "hambone_instance_web" (delete os no_items server web full_world).2.etcd ≡ none
unfolding delete delete_call Deleter.init Deleter.commit withdraw get_instance_key String-discrete
    contains get_session_and_mutex old_instance_equals_current_instance_if_set mkdir_file
    write_files pipe_kustomize_to_kubectl names_equate Deleter.run_cleanup_funcs
    Cleanup.run_cleanup_funcs Cleanup.reverse_slice Cleanup.reverse_rounds Cleanup.swap Cleanup.set
    Cleanup.get_elem?
delete-removed_example =
    delete-removed cluster lawful_cluster box_os settings no_items "instances" "templates" false
      true web full_world "hambone_instance_web" refl refl

abbrev for_web : GetOptions
for_web = record { name = "web"; start = pos 0; stop = pos 0; exclude_statuses = true }

get-applied_example :
    (get os no_items server for_web (apply os no_items server false web empty_world).2).1
    ≡ instance_named "web" "y" ∷ []
unfolding apply apply_call Updater.init Updater.commit Updater.put_files validate refresh
    load_statuses append_statuses get run get_file_key get_instance_key String-discrete contains
    get_session_and_mutex old_instance_equals_current_instance_if_set mkdir_file write_files
    pipe_kustomize_to_kubectl names_equate Updater.run_cleanup_funcs Cleanup.run_cleanup_funcs
    Cleanup.reverse_slice Cleanup.reverse_rounds Cleanup.swap Cleanup.set Cleanup.get_elem?
    Getter.run_cleanup_funcs
get-applied_example =
    get-applied cluster lawful_cluster box_os settings no_items "instances" "templates" false true
      web for_web empty_world refl refl (differ "web" "" refl) refl refl refl
