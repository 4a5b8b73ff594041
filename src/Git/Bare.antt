-- ===== src/Git/Bare.antt =====
-- Whole requests over the git adapter, to a server that runs neither kustomize nor kubectl: what
-- they do on the machine.
pub mod Ends
use hambone.Base.{String, Bool, true, false, ◌≡◌, refl, ◌∙◌, sym, ap, arith, none, []}
use hambone.Go.{Error, Result, ok, err, Action, Unit₀, ◌>>◌}
use hambone.Pb.{Instance}
use hambone.Sys.{Os}
use hambone.State.Cleanup.{run_cleanup_funcs}
use hambone.State.Cleanup.Order.{run_cleanup_funcs-none}
use hambone.Git.Cleanup.{cleanup_error}
use hambone.State.Receiver.{World, on_os, machine, run_and_forget}
use hambone.Instances.Statuses.{ItemStatuses}
use hambone.Instances.Requests.{
  Server, apply, delete, delete_call, names_equate, validate, refresh, withdraw,
}
use hambone.Instances.Requests.Apply.{apply-ok, apply_call-not_started, start}
use hambone.Instances.Requests.Delete.{begin}
use hambone.Etcd.Client.{Etcd}
use hambone.Git.Getter.{Vars}
use hambone.Git.Updater as Updater
use hambone.Git.Updater.{WriterFields, WriterCall, prepare, commit_files, lock_if_wanted}
use hambone.Git.Deleter as Deleter
use hambone.Git.Deleter.{examine, delete_files}
use hambone.Git.Engine.{Settings, new_writer}
use hambone.Git.Contract.{engine-IsUpdater, git_server}
use hambone.Git.WrittenFiles.{fields_of}

module _ {S O : Type 0} where
  -- What a method of a writer leaves alone when it only takes a lock.
  abbrev pub KeepsRest : WriterCall S O → WriterCall S O → Type 0
  KeepsRest c d =
      (d.world.os ≡ c.world.os) × (d.shared ≡ c.shared) × (d.self.fields ≡ c.self.fields)

  -- A lock, and what is done on the machine behind it.
  abbrev pub behind :
      Action (WriterCall S O) Unit₀
      → (WriterFields → Instance → Action O Unit₀)
      → Action (WriterCall S O) Unit₀
  behind lock step = lock >> (λ c. on_os (step c.self.fields c.shared) c)

  module _ (lock : Action (WriterCall S O) Unit₀) (step : WriterFields → Instance → Action O Unit₀)
      (c : WriterCall S O) where
    behind-ok :
        KeepsRest c (lock c).1
        → (behind lock step c).0 ≡ ok tt
        → let done = step c.self.fields c.shared c.world.os in
          let d = (behind lock step c).1 in
          (done.0 ≡ ok tt)
          × (d.world.os ≡ done.1)
          × (d.shared ≡ c.shared)
          × (d.self.fields ≡ c.self.fields)
    behind-ok keeps h = ground (arith, keeps)

    behind-err :
        (e : Error)
        → lock c ≡ (ok tt, c)
        → (step c.self.fields c.shared c.world.os).0 ≡ err e
        → (behind lock step c).0 ≡ err e
    behind-err e free h = ground arith

module _ {S O : Type 0} (E : Etcd S) where
  pub lock_if_wanted-keeps :
      (a b d : String) (c : WriterCall S O) → KeepsRest c (lock_if_wanted E a b d c).1
  unfolding lock_if_wanted
  lock_if_wanted-keeps a b d c = ground arith

module _ {S O : Type 0} (E : Etcd S) (os : Os O) (c : WriterCall S O) where
  -- A step that a call has made on the machine, with nothing else changed.
  abbrev pub Did : (Result Unit₀ × O) → Result Unit₀ × WriterCall S O → Type 0
  Did done (r, d) =
      (done.0 ≡ ok tt)
      × (d.world.os ≡ done.1)
      × (d.shared ≡ c.shared)
      × (d.self.fields ≡ c.self.fields)

  abbrev pub on_start : (WriterFields → Instance → Action O Unit₀) → Result Unit₀ × O
  on_start step = step c.self.fields c.shared c.world.os

  pub updater_init-ok :
      (Updater.init E os c).0 ≡ ok tt → Did (on_start (prepare os)) (Updater.init E os c)
  unfolding Updater.init
  updater_init-ok h =
      behind-ok
        (lock_if_wanted E "(*gitUpdater).Init.func1" "(*gitUpdater).Init.func2"
          "(*gitUpdater).Init.func3")
        (prepare os) c (lock_if_wanted-keeps E _ _ _ c) h

  deleter_init-ok :
      (Deleter.init E os c).0 ≡ ok tt → Did (on_start (examine os)) (Deleter.init E os c)
  unfolding Deleter.init
  deleter_init-ok h =
      behind-ok
        (lock_if_wanted E "(*gitDeleter).Init.func1" "(*gitDeleter).Init.func2"
          "(*gitDeleter).Init.func3")
        (examine os) c (lock_if_wanted-keeps E _ _ _ c) h

  updater_init-err :
      (e : Error)
      → c.world.vars.etcd_locks_git_key ≡ ""
      → (on_start (prepare os)).0 ≡ err e
      → (Updater.init E os c).0 ≡ err e
  unfolding Updater.init lock_if_wanted
  updater_init-err e unlocked failed =
      behind-err
        (lock_if_wanted E "(*gitUpdater).Init.func1" "(*gitUpdater).Init.func2"
          "(*gitUpdater).Init.func3")
        (prepare os) c e (ground arith) failed

module _ {S O : Type 0} (E : Etcd S) (os : Os O) (c : WriterCall S O) where
  -- Without a lock to take, `Init` registers nothing.
  pub updater_init-registers_none :
      c.world.vars.etcd_locks_git_key ≡ ""
      → (Updater.init E os c).1.self.cleanup_funcs ≡ c.self.cleanup_funcs
  unfolding Updater.init lock_if_wanted
  updater_init-registers_none unlocked = ground arith

  -- Nor does the cleanup fail where nothing is registered.
  pub cleanup-nothing : c.self.cleanup_funcs ≡ [] → (Updater.run_cleanup_funcs c).0 ≡ ok tt
  unfolding run_and_forget
  cleanup-nothing none_there =
      ap (λ fs. (run_cleanup_funcs cleanup_error fs c.world.etcd).0) none_there
      ∙ run_cleanup_funcs-none cleanup_error c.world.etcd

module _ {S O : Type 0} (E : Etcd S) (os : Os O) (settings : Settings)
    (unmarshal : String → Result ItemStatuses) (instances_dir templates_dir : String) where
  -- The server without kustomize and kubectl.
  abbrev pub bare_server : Server (World S O Vars)
  bare_server = git_server E os settings instances_dir templates_dir false false

  abbrev pub fields_for : Instance → WriterFields
  fields_for instance = fields_of instances_dir settings.working_dir instance.name

  -- `Init` of the updater and of the deleter, and their commits, on the machine.
  abbrev pub prepared : Instance → O → Result Unit₀ × O
  prepared instance = prepare os (fields_for instance) instance

  abbrev pub committed : Bool → Instance → O → Result Unit₀ × O
  committed skip_commit instance = commit_files os skip_commit (fields_for instance) instance.name

  abbrev pub examined : Instance → O → Result Unit₀ × O
  examined instance = examine os (fields_for instance) instance

  abbrev pub removed : Instance → O → Result Unit₀ × O
  removed instance = delete_files os (fields_for instance) instance.name

  pub commit-os :
      (skip_commit : Bool) (instance : Instance) (c : WriterCall S O) (o : O)
      → c.world.os ≡ o
      → c.shared ≡ instance
      → c.self.fields ≡ fields_for instance
      → ((Updater.commit E os skip_commit c).0 ≡ (committed skip_commit instance o).0)
        × ((Updater.commit E os skip_commit c).1.world.os ≡ (committed skip_commit instance o).1)
  unfolding Updater.commit
  commit-os skip_commit instance c o e f g = ground arith

  -- An `Apply` that returns nil has gone through both.
  pub apply-steps :
      (skip_commit : Bool) (instance : Instance) (w : World S O Vars)
      → let done = apply (machine os) unmarshal bare_server skip_commit instance w in
        let o = (prepared instance w.os).1 in
        done.0 ≡ ok tt
        → ((prepared instance w.os).0 ≡ ok tt)
          × ((committed skip_commit instance o).0 ≡ ok tt)
          × (done.2.os ≡ (committed skip_commit instance o).1)
  unfolding validate refresh run_and_forget
  apply-steps skip_commit instance w h =
      let (_, through, ended, _) =
        apply-ok (machine os) unmarshal bare_server (engine-IsUpdater E os settings) skip_commit
          instance w h in
      let c = start (machine os) unmarshal bare_server instance w in
      let (ready, on, of_, at) = updater_init-ok E os c through.init_ok in
      let (same, after) = commit-os skip_commit instance _ _ on of_ at in
      (
        ready,
        sym same ∙ through.commit_ok,
        ap (λ (p : Result Unit₀ × Instance × World S O Vars). p.2.os) ended
            ∙ (ap (λ (d : WriterCall S O). d.world.os) through.cleaned ∙ after),
      )

  -- If `Init` refuses the Instance, and no lock is configured, so does `Apply`.
  pub apply-refused :
      (skip_commit : Bool) (instance : Instance) (e : Error) (w : World S O Vars)
      → names_equate instance ≡ none
      → w.vars.etcd_locks_git_key ≡ ""
      → (prepared instance w.os).0 ≡ err e
      → (apply (machine os) unmarshal bare_server skip_commit instance w).0 ≡ err e
  unfolding apply
  apply-refused skip_commit instance e w equate unlocked failed =
      let c = start (machine os) unmarshal bare_server instance w in
      let ended =
        apply_call-not_started (machine os) unmarshal bare_server skip_commit c e
          (updater_init-err E os c e unlocked failed) in
      let nothing =
        cleanup-nothing E os (Updater.init E os c).1
          (updater_init-registers_none E os c unlocked) in
      ground (arith, ended, nothing)

  pub remove-os :
      (instance : Instance) (c : WriterCall S O) (o : O)
      → c.world.os ≡ o
      → c.shared ≡ instance
      → c.self.fields ≡ fields_for instance
      → ((Deleter.commit E os c).0 ≡ (removed instance o).0)
        × ((Deleter.commit E os c).1.world.os ≡ (removed instance o).1)
  unfolding Deleter.commit
  remove-os instance c o e f g = ground arith

  delete_call-steps :
      (c : WriterCall S O)
      → (delete_call (machine os) unmarshal bare_server c).0 ≡ ok tt
      → ((Deleter.init E os c).0 ≡ ok tt)
        × ((Deleter.commit E os (Deleter.init E os c).1).0 ≡ ok tt)
        × ((delete_call (machine os) unmarshal bare_server c).1.world.os
            ≡ (Deleter.commit E os (Deleter.init E os c).1).1.world.os)
  unfolding delete_call withdraw run_and_forget
  delete_call-steps c h = ground arith

  -- A `Delete` that returns nil has gone through both.
  pub delete-steps :
      (instance : Instance) (w : World S O Vars)
      → let done = delete (machine os) unmarshal bare_server instance w in
        let o = (examined instance w.os).1 in
        done.0 ≡ ok tt
        → ((examined instance w.os).0 ≡ ok tt)
          × ((removed instance o).0 ≡ ok tt)
          × (done.2.os ≡ (removed instance o).1)
  unfolding delete
  delete-steps instance w h =
      let c = begin (machine os) unmarshal bare_server instance w in
      let done : (delete_call (machine os) unmarshal bare_server c).0 ≡ ok tt = ground arith in
      let (started, ended, last) = delete_call-steps c done in
      let (ready, on, of_, at) = deleter_init-ok E os c started in
      let (same, after) = remove-os instance (Deleter.init E os c).1 _ on of_ at in
      (ready, sym same ∙ ended, ground (arith, last, after))
