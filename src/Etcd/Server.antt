-- ===== src/Etcd/Server.antt =====
-- The server over the etcd adapter, and what is left of a request when it has given back what it
-- had obtained.
pub mod Released
use hambone.Base.{String, Bool, List}
use hambone.Sys.{Os}
use hambone.State.Receiver.{World}
use hambone.Instances.Requests.{Server}
use hambone.Etcd.Client.{Etcd}
use hambone.Etcd.Engine.{Settings, engine}

module _ {S O : Type 0} (E : Etcd S) (os : Os O) (settings : Settings) where
  -- The server, with the etcd adapter as its state store.
  abbrev pub etcd_server : String → String → Bool → Bool → Server (World S O (List String))
  etcd_server instances_dir templates_dir enable_kustomize_build enable_kubectl = record {
    instances_dir = instances_dir;
    templates_dir = templates_dir;
    state_store = engine E os settings;
    enable_kustomize_build = enable_kustomize_build;
    enable_kubectl = enable_kubectl;
  }
