-- ===== src/Tests/AtomicRuns.antt =====
-- Requests on the small cluster that may end in any way.
use hambone.Base.{
  String, Bool, inr, none, ◌≢◌, true, false, refl, List, [], ◌∷◌, ◌≡◌, ◌⊎◌, some, String-discrete,
  contains,
}
use hambone.Base.Int.{pos}
use hambone.Go.{ok}
use hambone.Pb.{GetOptions, Instance, File}
use hambone.Etcd.Getter as Getter
use hambone.Etcd.Getter.{run}
use hambone.Etcd.Getter.Run.{instance_named}
use hambone.Etcd.Atomic.Answered.{get-Reached}
use hambone.Helpers.{mkdir_file}
use hambone.Etcd.Adapter.{
  get_instance_key, get_file_key, get_session_and_mutex,
  old_instance_equals_current_instance_if_set, write_files,
}
use hambone.Etcd.Updater as Updater
use hambone.State.Cleanup.{run_cleanup_funcs, reverse_slice, reverse_rounds, swap, set, get_elem?}
use hambone.Instances.Exec.{pipe_kustomize_to_kubectl}
use hambone.Instances.Statuses.{append_statuses, load_statuses}
use hambone.Etcd.Atomic.Origin.{Site, IsPutBy, Reached, started, handled, Reached-origin}
use hambone.Etcd.Lawful.{find}
use hambone.Etcd.Atomic.{Writes, AllOrNothing, Partly, Same}
use hambone.Etcd.Atomic.Applied.{with_all, apply-Partly}
use hambone.Etcd.Atomic.Deleted.{without, delete-atomic}
use hambone.Etcd.Atomic.Trace.{Request, applies, deletes, handle_all, IsRun, handle_all-refines}
use hambone.Instances.Requests.{
  Server, apply, delete, get, apply_call, handle_apply, names_equate, validate, refresh,
}
use hambone.Tests.Cluster.{cluster, lawful_cluster, find-put, find-delete}
use hambone.Tests.Flaky.{flaky, lawful_flaky, writing_flaky}
use hambone.Etcd.Server.{etcd_server}
use hambone.Tests.Machine.{box_os, no_items, web, web_after, differ, old_named}
use hambone.Tests.Setup.{settings, os, server, broken_world, empty_world, TestWorld}

writing_cluster : Writes cluster lawful_cluster
writing_cluster = record {
  put_ends = λ c k v s. inr λ j storage. find-put k v j s;
  delete_ends = λ c p s. inr λ j storage. find-delete p j s;
}

abbrev flaky_server : Server TestWorld
flaky_server = etcd_server flaky box_os settings "instances" "templates" false false

abbrev file_of : String → String → File
file_of name contents = record { name = name; directory = ""; contents = contents }

-- The second of its files is stored, but its Put fails, and the third is not tried.
abbrev three_files : Instance
three_files = record web { files = file_of "a" "1" ∷ file_of "b" "late" ∷ file_of "c" "3" ∷ [] }

apply-Partly_example :
    let done = apply os no_items flaky_server false three_files empty_world in
    Partly three_files (λ k. find k empty_world.etcd) (λ k. find k done.2.etcd)
    × (done.0 ≡ ok tt
        → Same (λ k. find k done.2.etcd) (with_all three_files (λ k. find k empty_world.etcd)))
apply-Partly_example =
    apply-Partly flaky lawful_flaky writing_flaky box_os settings no_items "instances" "templates"
      false false three_files empty_world

-- It fails, and leaves the yaml and two files.
stopped :
    let done = apply os no_items flaky_server false three_files empty_world in
    (done.0 ≢ ok tt)
    × (find "hambone_instance_web" done.2.etcd ≡ some "y")
    × (find "hambone_instance_web/b" done.2.etcd ≡ some "late")
    × (find "hambone_instance_web/c" done.2.etcd ≡ none)
unfolding apply get_instance_key get_file_key String-discrete contains apply_call Updater.init
    get_session_and_mutex old_instance_equals_current_instance_if_set mkdir_file write_files
    validate pipe_kustomize_to_kubectl Updater.commit Updater.put_files refresh load_statuses
    names_equate append_statuses Updater.run_cleanup_funcs run_cleanup_funcs reverse_slice
    reverse_rounds swap set get_elem?
stopped = (λ h. cc, refl, refl, refl)

delete-atomic_example :
    AllOrNothing
      (without "web")
      (λ k. find k broken_world.etcd)
      (λ k. find k (delete os no_items server web broken_world).2.etcd)
delete-atomic_example =
    delete-atomic cluster lawful_cluster writing_cluster box_os settings no_items "instances"
      "templates" false true web broken_world

-- The first request is stale, the second ends in a Put that fails, and the third deletes what is
-- stored.
abbrev requests : List Request
requests = applies (web_after (old_named "web" "w")) ∷ applies three_files ∷ deletes web ∷ []

abbrev run_of : List Bool × TestWorld
run_of =
    handle_all flaky lawful_flaky writing_flaky box_os settings no_items "instances" "templates"
      false false requests broken_world

handle_all-refines_example :
    IsRun requests run_of.0 (λ k. find k broken_world.etcd) (λ k. find k run_of.1.etcd)
handle_all-refines_example =
    handle_all-refines flaky lawful_flaky writing_flaky box_os settings no_items "instances"
      "templates" false false requests broken_world

abbrev site : Site
site = record {
  settings = settings;
  unmarshal = no_items;
  instances_dir = "instances";
  templates_dir = "templates";
  enable_kustomize_build = false;
  enable_kubectl = true;
}

abbrev served : TestWorld
served = (handle_apply os no_items server web empty_world).2

after_apply :
    Reached cluster lawful_cluster writing_cluster box_os empty_world (applies web ∷ []) served
after_apply = handled site (applies web) started

served-web : find "hambone_instance_web" served.etcd ≡ some "y"
unfolding handle_apply apply get_instance_key get_file_key String-discrete contains apply_call
    Updater.init get_session_and_mutex old_instance_equals_current_instance_if_set mkdir_file
    write_files validate pipe_kustomize_to_kubectl Updater.commit Updater.put_files refresh
    load_statuses names_equate append_statuses Updater.run_cleanup_funcs run_cleanup_funcs
    reverse_slice reverse_rounds swap set get_elem?
served-web = refl

Reached-origin_example :
    IsPutBy (applies web ∷ []) "hambone_instance_web" "y"
    ⊎ (find "hambone_instance_web" empty_world.etcd ≡ some "y")
unfolding contains
Reached-origin_example =
    Reached-origin cluster lawful_cluster writing_cluster box_os after_apply "hambone_instance_web"
      "y" refl served-web

abbrev for_web : GetOptions
for_web = record { name = "web"; start = pos 0; stop = pos 0; exclude_statuses = true }

served-answers : (get os no_items server for_web served).0 ≡ ok tt
unfolding handle_apply apply get_instance_key get_file_key String-discrete contains apply_call
    Updater.init get_session_and_mutex old_instance_equals_current_instance_if_set mkdir_file
    write_files validate pipe_kustomize_to_kubectl Updater.commit Updater.put_files refresh
    load_statuses names_equate append_statuses Updater.run_cleanup_funcs run_cleanup_funcs
    reverse_slice reverse_rounds swap set get_elem? get run Getter.run_cleanup_funcs
served-answers = refl

get-Reached_example :
    ((get os no_items server for_web served).1 ≡ [])
    ⊎ ((yaml : String) × ((get os no_items server for_web served).1
          ≡ instance_named "web" yaml ∷ [])
        × (IsPutBy (applies web ∷ []) "hambone_instance_web" yaml
            ⊎ (find "hambone_instance_web" empty_world.etcd ≡ some yaml)))
unfolding get_instance_key contains String-discrete
get-Reached_example =
    get-Reached cluster lawful_cluster writing_cluster box_os site for_web after_apply
      (differ "web" "" refl) refl refl served-answers
