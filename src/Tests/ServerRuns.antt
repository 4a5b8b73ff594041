-- ===== src/Tests/ServerRuns.antt =====
-- Runs of the server over the etcd adapter.
use hambone.State.Cleanup as Cleanup
use hambone.Base.{
  ◌≡◌, ◌≢◌, refl, String, true, false, none, some, [], ◌∷◌, map, String-discrete, contains,
}
use hambone.Base.Int.{pos}
use hambone.Go.{Error, ok, err}
use hambone.Helpers.{mkdir_file}
use hambone.Etcd.Lawful.{find}
use hambone.Etcd.Adapter.{
  get_instance_key, get_file_key, get_session_and_mutex,
  old_instance_equals_current_instance_if_set, write_files,
}
use hambone.Etcd.Updater as Updater
use hambone.Etcd.Updater.{WriterCall}
use hambone.Etcd.Contract.{engine-IsUpdater}
use hambone.Etcd.Apply.{apply-stored}
use hambone.Instances.Exec.{pipe_kustomize_to_kubectl}
use hambone.Instances.Statuses.{Item, append_statuses, load_statuses}
use hambone.Instances.Statuses.Filled.{without_statuses}
use hambone.Instances.Requests.{names_equate, validate, apply_call, apply, fill_all, refresh}
use hambone.Instances.Requests.Apply.{Succeeded, apply-ok}
use hambone.Instances.Requests.Get.{fill_all-keeps}
use hambone.Tests.Cluster.{cluster, lawful_cluster}
use hambone.Tests.Machine.{box_os, no_items, web}
use hambone.Tests.Setup.{settings, os, server, empty_world, broken_world, call_of}

apply-stored_example :
    find "hambone_instance_web" (apply os no_items server false web empty_world).2.etcd ≡ some "y"
unfolding apply get_instance_key get_file_key String-discrete contains apply_call Updater.init
    get_session_and_mutex old_instance_equals_current_instance_if_set mkdir_file write_files
    validate pipe_kustomize_to_kubectl Updater.commit Updater.put_files refresh load_statuses
    names_equate append_statuses Updater.run_cleanup_funcs Cleanup.run_cleanup_funcs
    Cleanup.reverse_slice Cleanup.reverse_rounds Cleanup.swap Cleanup.set Cleanup.get_elem?
apply-stored_example =
    apply-stored cluster lawful_cluster box_os settings no_items "instances" "templates" false true
      web empty_world "hambone_instance_web" refl refl

apply-ok_example :
    let c = call_of web empty_world in
    let d = (apply_call os no_items server false c).1 in
    (names_equate web ≡ none)
    × Succeeded os no_items server false c d
    × (apply os no_items server false web empty_world ≡ (ok tt, d.shared, d.world))
    × (d.shared.old_instance ≡ none)
unfolding apply get_instance_key get_file_key String-discrete contains apply_call Updater.init
    get_session_and_mutex old_instance_equals_current_instance_if_set mkdir_file write_files
    validate pipe_kustomize_to_kubectl Updater.commit Updater.put_files refresh load_statuses
    names_equate append_statuses Updater.run_cleanup_funcs Cleanup.run_cleanup_funcs
    Cleanup.reverse_slice Cleanup.reverse_rounds Cleanup.swap Cleanup.set Cleanup.get_elem?
apply-ok_example =
    apply-ok os no_items server (engine-IsUpdater cluster box_os settings) false web empty_world
      refl

fill_all-keeps_example :
    let (r, list, _) = fill_all os no_items server (web ∷ web ∷ []) broken_world in
    ((e : Error) → r ≢ err e) × (map without_statuses list ≡ web ∷ web ∷ [])
fill_all-keeps_example = fill_all-keeps os no_items server (web ∷ web ∷ []) broken_world

abbrev item : String → String → Item
item kind name = record {
  kind = kind;
  metadata = record { name = name; namespace = "default" };
  labels = [];
  status = record {
    available_replicas = pos 1;
    ready_replicas = pos 2;
    desired_replicas = pos 3;
    updated_replicas = pos 4;
  };
}
