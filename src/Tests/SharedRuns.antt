-- ===== src/Tests/SharedRuns.antt =====
-- Runs of the server over a cluster that other clients write to.
use hambone.State.Cleanup as Cleanup
use hambone.Base.{refl, String, true, false, some, none, List, [], ◌∷◌, String-discrete}
use hambone.State.Receiver.{World, machine}
use hambone.Sys.{Os}
use hambone.Etcd.Server.{etcd_server}
use hambone.Helpers.{mkdir_file}
use hambone.Etcd.Adapter.{
  get_instance_key, get_file_key, get_session_and_mutex,
  old_instance_equals_current_instance_if_set, write_files,
}
use hambone.Etcd.Updater as Updater
use hambone.Etcd.Deleter as Deleter
use hambone.Instances.Exec.{pipe_kustomize_to_kubectl}
use hambone.Instances.Statuses.{append_statuses, load_statuses}
use hambone.Instances.Requests.{
  Server, names_equate, validate, apply_call, apply, delete, delete_call, withdraw, refresh,
}
use hambone.Etcd.Shared.Swaps.{Swapped, apply-swaps, delete-swaps}
use hambone.Tests.Setup.{settings}
use hambone.Tests.Busy.{Busy, busy, shared_busy}
use hambone.Tests.Machine.{Box, box_os, new_box, no_items, web_after, old_named}

abbrev pub BusyWorld : Type 0
BusyWorld = World Busy Box (List String)

-- Before an `Apply` has the mutex of "web", the first four writes of the others are made, and before
-- a `Delete` has it, one more. The next one waits for its release.
abbrev pub crowded : BusyWorld
crowded = record {
  etcd = record {
    history = λ k. [];
    held = [];
    others =
        record { key = "hambone_instance_web"; value = some "x" }
        ∷ record { key = "hambone_instance_other"; value = some "o" }
        ∷ record { key = "hambone_instance_db"; value = some "d" }
        ∷ record { key = "hambone_instance_log"; value = none }
        ∷ record { key = "hambone_instance_web"; value = some "late" }
        ∷ record { key = "hambone_instance_web"; value = some "later" }
        ∷ [];
  };
  os = new_box;
  vars = [];
}

abbrev os : Os BusyWorld
os = machine box_os

abbrev server : Server BusyWorld
server = etcd_server busy box_os settings "instances" "templates" false true

apply-swaps_example :
    Swapped busy shared_busy box_os "hambone_instance_web"
      (some "x")
      (some "y")
      (apply os no_items server false (web_after (old_named "web" "x")) crowded).2.etcd
unfolding apply get_instance_key get_file_key String-discrete apply_call Updater.init
    get_session_and_mutex old_instance_equals_current_instance_if_set mkdir_file write_files
    validate pipe_kustomize_to_kubectl Updater.commit Updater.put_files refresh load_statuses
    names_equate append_statuses Updater.run_cleanup_funcs Cleanup.run_cleanup_funcs
    Cleanup.reverse_slice Cleanup.reverse_rounds Cleanup.swap Cleanup.set Cleanup.get_elem?
apply-swaps_example =
    apply-swaps busy shared_busy box_os settings no_items "instances" "templates" false true
      (web_after (old_named "web" "x")) (old_named "web" "x") crowded refl refl

delete-swaps_example :
    Swapped busy shared_busy box_os "hambone_instance_web"
      (some "late")
      none
      (delete os no_items server (web_after (old_named "web" "late")) crowded).2.etcd
unfolding delete get_instance_key get_file_key String-discrete delete_call Deleter.init
    get_session_and_mutex old_instance_equals_current_instance_if_set mkdir_file write_files
    withdraw pipe_kustomize_to_kubectl Deleter.commit names_equate Deleter.run_cleanup_funcs
    Cleanup.run_cleanup_funcs Cleanup.reverse_slice Cleanup.reverse_rounds Cleanup.swap Cleanup.set
    Cleanup.get_elem?
delete-swaps_example =
    delete-swaps busy shared_busy box_os settings no_items "instances" "templates" false true
      (web_after (old_named "web" "late")) (old_named "web" "late") crowded refl refl
