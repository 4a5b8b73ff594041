-- ===== src/Git/Contract.antt =====
-- What the server gets from the git adapter when the tools fail.
use hambone.Base.{String, Bool, ◌≡◌, refl, arith}
use hambone.Go.{panic_over, Error, Result, ok, err}
use hambone.Sys.{Os}
use hambone.State.Receiver.{World, machine, run_and_forget}
use hambone.State.Contract.{IsUpdater}
use hambone.Instances.Statuses.{ItemStatuses}
use hambone.Instances.Requests.{Server, withdraw, delete_call}
use hambone.Etcd.Client.{Etcd}
use hambone.Git.Getter.{Vars}
use hambone.Git.Updater as Updater
use hambone.Git.Updater.{WriterCall}
use hambone.Git.Deleter as Deleter
use hambone.Git.Cleanup.{cleanup_error}
use hambone.Git.Engine.{Settings, engine}

module _ {S O : Type 0} (E : Etcd S) (os : Os O) (settings : Settings) where
  pub engine-IsUpdater : IsUpdater (engine E os settings).updater
  unfolding Updater.cancel run_and_forget
  engine-IsUpdater = record { cancel_fails = λ e c. refl; cleanup_shared = λ c. refl }

  -- The server, with the git adapter as its state store.
  abbrev pub git_server : String → String → Bool → Bool → Server (World S O Vars)
  git_server instances_dir templates_dir enable_kustomize_build enable_kubectl = record {
    instances_dir = instances_dir;
    templates_dir = templates_dir;
    state_store = engine E os settings;
    enable_kustomize_build = enable_kustomize_build;
    enable_kubectl = enable_kubectl;
  }

  -- Over the git adapter: if `Init` returned nil and the tools fail to delete the objects, `Delete`
  -- returns nil all the same, unless the cleanup panics, and what it still does after the failure is
  -- to clean up. It does not commit.
  pub delete_call-swallows :
      (unmarshal : String → Result ItemStatuses) (instances_dir templates_dir : String)
      (enable_kustomize_build enable_kubectl : Bool) (c : WriterCall S O) (e : Error)
      → let server = git_server instances_dir templates_dir enable_kustomize_build enable_kubectl in
        let tried = withdraw (machine os) unmarshal server (Deleter.init E os c).1 in
        (Deleter.init E os c).0 ≡ ok tt
        → tried.0 ≡ err e
        → delete_call (machine os) unmarshal server c ≡ (
          panic_over (ok tt) (run_and_forget cleanup_error tried.1).0,
          (run_and_forget cleanup_error tried.1).1,
        )
  unfolding delete_call Deleter.cancel
  delete_call-swallows unmarshal instances_dir templates_dir enable_kustomize_build enable_kubectl c
        e started failed =
      ground arith
