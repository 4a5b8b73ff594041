-- ===== src/Git/Apply.antt =====
-- A whole `Apply` over the git adapter: what git has done when it has succeeded.
use hambone.Base.{String, Bool, ◌≡◌, ◌≢◌, ◌⊎◌, none}
use hambone.Go.{Result, ok}
use hambone.Pb.{Instance}
use hambone.Sys.{Os}
use hambone.State.Receiver.{World, machine}
use hambone.Instances.Statuses.{ItemStatuses}
use hambone.Instances.Requests.{Server, apply}
use hambone.Instances.Requests.Apply.{apply-ok, start, validated}
use hambone.Etcd.Client.{Etcd}
use hambone.Git.Getter.{Vars}
use hambone.Git.Updater as Updater
use hambone.Git.Updater.{WriterCall}
use hambone.Git.Engine.{Settings}
use hambone.Git.Contract.{engine-IsUpdater, git_server}
use hambone.Git.Outcome.{Ran, diff_args, apply_args, commit_files-ok}

module _ {S O : Type 0} (E : Etcd S) (os : Os O) (settings : Settings) where
  module _ (unmarshal : String → Result ItemStatuses) (instances_dir templates_dir : String)
      (enable_kustomize_build enable_kubectl : Bool) where
    abbrev server : Server (World S O Vars)
    server =
        git_server E os settings instances_dir templates_dir enable_kustomize_build enable_kubectl

    -- The call of the updater, when the tools have accepted the Instance.
    abbrev pub accepted : Bool → Instance → World S O Vars → WriterCall S O
    accepted skip_commit instance w =
        validated (machine os) unmarshal server skip_commit
          (start (machine os) unmarshal server instance w)

    -- In an `Apply` over the git adapter that returns nil, the commit behind the checks of the
    -- tools either found by `git diff` that nothing had changed, and ran nothing else, or it ran
    -- `git add` on the directory of the Instance and, unless it was to be skipped, commit and push,
    -- each without an error.
    pub apply-pushed :
        (skip_commit : Bool) (instance : Instance) (w : World S O Vars)
        → (apply (machine os) unmarshal server skip_commit instance w).0 ≡ ok tt
        → let c = accepted skip_commit instance w in
          let fields = c.self.fields in
          let (changes, o₁) =
            os.combined_output "git" (diff_args os fields.working_dir) c.world.os in
          let o₂ = (Updater.commit E os skip_commit c).1.world.os in
          ((changes.error ≡ none) × (o₂ ≡ o₁))
          ⊎ ((changes.error ≢ none)
              × Ran os (apply_args os skip_commit fields.instance_dir c.shared.name) o₁ o₂)
    unfolding Updater.commit
    apply-pushed skip_commit instance w h =
        let (_, through, _, _) =
          apply-ok (machine os) unmarshal server (engine-IsUpdater E os settings) skip_commit
            instance w h in
        let c = accepted skip_commit instance w in
        commit_files-ok os skip_commit c.self.fields c.shared.name c.world.os through.commit_ok
