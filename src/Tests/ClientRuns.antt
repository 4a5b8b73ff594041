-- ===== src/Tests/ClientRuns.antt =====
-- Runs of the example client.
use hambone.State.Cleanup as Cleanup
use hambone.Base.{◌≡◌, refl, false, some, [], ◌∷◌, String-discrete, contains}
use native.Mathlib.Omega.{arith}
use hambone.Go.{ok}
use hambone.Etcd.Reliable.{is_ok}
use hambone.Helpers.{mkdir_file}
use hambone.State.Receiver.{machine}
use hambone.Etcd.Adapter.{
  get_instance_key, get_file_key, get_session_and_mutex,
  old_instance_equals_current_instance_if_set, write_files,
}
use hambone.Etcd.Lawful.{find}
use hambone.Etcd.Updater as Updater
use hambone.Etcd.Server.{etcd_server}
use hambone.Instances.Requests.{names_equate, validate, apply_call, apply, refresh, handle_apply}
use hambone.Examples.Api.{Api, connected}
use hambone.Examples.Client.{
  generate_kustomization_yaml, many_name, apply_many_instances, apply_instance, update_instance,
}
use hambone.Examples.Client.Many.{apply_many-stored, apply_many-ends}
use hambone.Examples.Client.Atomic.{update-refused}
use hambone.Tests.Cluster.{cluster, lawful_cluster}
use hambone.Tests.Machine.{box_os, new_box, no_items, differ}
use hambone.Tests.Setup.{settings, TestWorld, empty_world}
use hambone.Tests.WholeRuns.{reliable}
use hambone.Tests.Busy.{busy}
use hambone.Tests.SharedRuns.{BusyWorld}

abbrev client : Api TestWorld
client =
    connected (machine box_os) no_items
      (etcd_server cluster box_os settings "instances" "templates" false false)

abbrev busy_client : Api BusyWorld
busy_client =
    connected (machine box_os) no_items
      (etcd_server busy box_os settings "instances" "templates" false false)

apply_many-ends_example : (apply_many_instances client empty_world).0 ≡ ok tt
apply_many-ends_example =
    apply_many-ends cluster lawful_cluster box_os reliable settings no_items "instances" "templates"
      empty_world

-- The last of the 700.
apply_many-stored_example :
    find (get_instance_key (many_name 699)) (apply_many_instances client empty_world).1.etcd
    ≡ some (generate_kustomization_yaml (many_name 699) (many_name 699))
apply_many-stored_example =
    apply_many-stored cluster lawful_cluster box_os settings no_items "instances" "templates" false
      false empty_world 699
      (apply_many-ends cluster lawful_cluster box_os reliable settings no_items "instances"
        "templates" empty_world)
      (omega arith)

update-refused_example :
    is_ok (update_instance client "web" (apply_instance client "web" empty_world).1).0 ≡ false
unfolding apply_instance apply get_instance_key get_file_key String-discrete apply_call Updater.init
    get_session_and_mutex old_instance_equals_current_instance_if_set mkdir_file write_files
    validate Updater.commit Updater.put_files refresh names_equate handle_apply contains
    Updater.run_cleanup_funcs Cleanup.run_cleanup_funcs Cleanup.reverse_slice Cleanup.reverse_rounds
    Cleanup.swap Cleanup.set Cleanup.get_elem?
update-refused_example =
    update-refused cluster box_os settings no_items "instances" "templates" false false
      lawful_cluster "web" empty_world refl (differ "web" "other-name" refl) refl

-- Another client has stored what the deletion expects.
abbrev applied_world : BusyWorld
applied_world = record {
  etcd = record {
    history = λ k. [];
    held = [];
    others =
        record {
          key = "hambone_instance_web";
          value = some (generate_kustomization_yaml "web" "web");
        }
        ∷ [];
  };
  os = new_box;
  vars = [];
}
