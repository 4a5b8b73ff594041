-- ===== src/Tests/EtcdRuns.antt =====
-- Runs of the etcd adapter on the small cluster.
use hambone.Base.{
  contains, ◌≡◌, ◌≢◌, refl, String, ◌<>◌, true, Option, none, some, List, [], ◌∷◌, if◌then◌else◌,
  starts_with, map, String-discrete,
}
use hambone.Base.Int.{pos, int32}
use hambone.Helpers.{convert_start_stop_to_slice_indexes}
use hambone.State.Page.{slice}
use hambone.Go.{ok, Unit₀}
use hambone.Pb.{Instance, GetOptions}
use hambone.State.Receiver.{World}
use hambone.Etcd.Client.{KeyValue}
use hambone.Etcd.Adapter.{get_instance_key, instance_key_prefix}
use hambone.Etcd.Lawful.{find}
use hambone.Etcd.Updater.Init.{init-stale}
use hambone.Etcd.Updater as Updater
use hambone.Etcd.Updater.{WriterFields, WriterCall}
use hambone.Etcd.Updater.Cleanup.{init-cleanup, release}
use hambone.Etcd.Deleter as Deleter
use hambone.Etcd.Deleter.Laws.{commit-deletes_others}
use hambone.Etcd.Getter.{run, instance_of}
use hambone.Etcd.Getter.Run.{State, run-everything}
use hambone.Tests.Cluster.{Store, cluster, lawful_cluster, quiet_cluster}
use hambone.Tests.Machine.{Box, box_os, new_box, web, differ, web_after, old_named}

abbrev held : Store
held =
    record { key = "hambone_instance_web"; value = "x" }
    ∷ record { key = "hambone_instance_web/readme"; value = "r" }
    ∷ record { key = "hambone_instance_web2"; value = "z" }
    ∷ []

abbrev small_world : World Store Box (List String)
small_world = record { etcd = held; os = new_box; vars = [] }

-- An updater or a deleter, before `Init` and after it.
abbrev writer : Option Unit₀ → Instance → WriterCall Store Box Unit₀
writer client instance = record {
  world = small_world;
  shared = instance;
  self = record {
    fields = record {
      instance_dir = "instances/web";
      instance_file = "instances/web/kustomization.yaml";
      client = client;
    };
    cleanup_funcs = [];
  };
}

abbrev options : String → GetOptions
options name = record { name = name; start = pos 0; stop = pos 0; exclude_statuses = true }

abbrev getter : Store → String → State Store Box
getter store name = record {
  world = record { etcd = store; os = new_box; vars = [] };
  shared = [];
  self = record {
    fields = record { options = options name; instances_dir = "instances" };
    cleanup_funcs = [];
  };
}

some-differs : (a b : String) → a ≢ b → some a ≢ some b
some-differs a b differ h = differ cc

init-cleanup_example :
    let d = (Updater.init cluster box_os (writer none web)).1 in
    let done = (Updater.run_cleanup_funcs cluster box_os d).1 in
    (done.world.etcd
      ≡ release cluster quiet_cluster box_os (get_instance_key "web") (ok tt, held) d.world.etcd)
    × (done.self.cleanup_funcs ≡ [])
init-cleanup_example = init-cleanup cluster quiet_cluster box_os (writer none web) refl

-- The deletion of "web" takes "web2" with it.
commit-deletes_others_example :
    find
      (get_instance_key ("web" <> "2"))
      (Deleter.commit cluster box_os (writer (some tt) web)).1.world.etcd
    ≡ none
unfolding Deleter.commit
commit-deletes_others_example =
    commit-deletes_others cluster lawful_cluster box_os (writer (some tt) web) "2" refl

run-everything_example :
    (kvs : List KeyValue) × ((j : String)
      → find j kvs ≡ (if starts_with j instance_key_prefix then find j held else none))
    × ((run cluster (getter held "")).1.shared ≡ map instance_of kvs)
unfolding run String-discrete convert_start_stop_to_slice_indexes int32 slice
run-everything_example = run-everything cluster lawful_cluster (getter held "") refl refl refl refl

init-stale_example :
    ((Updater.init cluster box_os (writer none (web_after (old_named "web" "w")))).0 ≢ ok tt)
    × ((Updater.init cluster box_os (writer none (web_after (old_named "web" "w")))).1.world.os
        ≡ new_box)
unfolding get_instance_key String-discrete contains
init-stale_example =
    init-stale cluster lawful_cluster box_os (writer none (web_after (old_named "web" "w")))
      (old_named "web" "w") refl refl (some-differs "x" "w" (differ "x" "w" refl))
