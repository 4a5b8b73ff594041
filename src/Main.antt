-- ===== src/Main.antt =====
-- main.go: the flags, the choice of the state store, and the server that is made of them. The
-- listener and what gRPC serves on it are parameters.
pub mod Start
use hambone.Base.{String, List, [], Bool, false, ◌==◌, if◌then◌else◌}
use hambone.Go.{error_text, Result, ok, err, panicked, Action, Unit₀, rescue, panic, ◌>>=◌, ◌>>◌}
use hambone.Sys.{Os}
use hambone.State.Receiver.{World}
use hambone.Etcd.Client.{Etcd}
use hambone.State.{Engine}
use hambone.Etcd.Engine as EtcdEngine
use hambone.Git.Engine as GitEngine
use hambone.Instances.Requests.{Server}

pub record Flags : Type 0 where
  pub listen_address : String
  pub repo_dir : String
  pub instances_dir : String
  pub templates_dir : String
  pub state_plugin : String
  pub etcd_endpoints : String
  pub etcd_locks_git_key : String
  pub enable_kustomize_build : Bool
  pub enable_kubectl : Bool

abbrev pub default_flags : Flags
default_flags = record {
  listen_address = "127.0.0.1:50051";
  repo_dir = ".";
  instances_dir = "./instances";
  templates_dir = "./templates";
  state_plugin = "etcd";
  etcd_endpoints = "http://127.0.0.1:2379";
  etcd_locks_git_key = "";
  enable_kustomize_build = false;
  enable_kubectl = false;
}

-- The two implementations of `state.Engine`.
pub data StateStore : Type 0 where
  git : GitEngine.Settings → StateStore
  etcd : EtcdEngine.Settings → StateStore

-- The `switch` of `main`. It leaves the field `Branch` empty.
unfoldable pub state_store : Flags → Result StateStore
state_store flags =
    if flags.state_plugin == "git"
    then ok (
        git (record {
          working_dir = flags.repo_dir;
          endpoints_string = flags.etcd_endpoints;
          etcd_locks_git_key = flags.etcd_locks_git_key;
          branch = "";
        }))
    else if flags.state_plugin == "etcd"
    then ok
        (etcd (record { working_dir = flags.repo_dir; endpoints_string = flags.etcd_endpoints }))
    else panicked "Please choose `git` or `etcd` for state_store option"

-- `NewInstancesServer`, as `main` calls it
abbrev pub new_instances_server : {W : Type 0} → Flags → Engine W → Server W
new_instances_server flags store = record {
  instances_dir = flags.instances_dir;
  templates_dir = flags.templates_dir;
  state_store = store;
  enable_kustomize_build = flags.enable_kustomize_build;
  enable_kubectl = flags.enable_kubectl;
}

-- `if err != nil { panic(err) }`
abbrev pub must : {W A : Type 0} → Action W A → Action W A
must m = rescue m λ e. panic (error_text e)

module _ {S O L : Type 0} (E : Etcd S) (os : Os O) (listen : String → Action O L)
    (serve : (V : Type 0) → L → Server (World S O V) → Action (World S O V) Unit₀) where
  -- `main` behind the `switch`
  unfoldable pub start : {V : Type 0} → Flags → Engine (World S O V) → Action (World S O V) Unit₀
  start {V} flags store = do
    must store.init
    listener ← must (λ w. let (r, o) = listen flags.listen_address w.os in (r, record w { os = o }))
    must (serve V listener (new_instances_server flags store))

  -- A new process: its package variables have their zero values.
  abbrev pub process : {V : Type 0} → V → S × O → World S O V
  process vars (s, o) = record { etcd = s; os = o; vars = vars }

  -- What is left of the cluster and the machine.
  abbrev pub exited : {V : Type 0} → Result Unit₀ × World S O V → Result Unit₀ × (S × O)
  exited (r, w) = (r, (w.etcd, w.os))

  abbrev pub run_store : Flags → Result StateStore → Action (S × O) Unit₀
  run_store flags (ok (git settings)) outside = exited (
      start flags (GitEngine.engine E os settings)
        (process (record { endpoints = []; etcd_locks_git_key = "" }) outside))
  run_store flags (ok (etcd settings)) outside =
      exited (start flags (EtcdEngine.engine E os settings) (process [] outside))
  run_store flags (err e) outside = (err e, outside)
  run_store flags (panicked p) outside = (panicked p, outside)

  unfoldable pub main : Flags → Action (S × O) Unit₀
  unfolding state_store start
  main flags = run_store flags (state_store flags)
