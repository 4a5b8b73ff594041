-- ===== src/Git/Updater.antt =====
-- `gitUpdater`
use hambone.Base.{
  String, ◌<>◌, Bool, not, Option, none, some, List, [], ◌∷◌, ◌==◌, if◌then◌else◌, trim_space,
}
use hambone.Go.{Error, Action, Unit₀, fail, fail_if, gets, skip, check, ◌>>=◌, ◌>>◌}
use hambone.Pb.{Instance, OldInstance, File}
use hambone.Sys.{Os}
use hambone.State.{instance_no_exist_error, old_instance_differs_error}
use hambone.State.Method.{Call}
use hambone.State.Receiver.{World, Receiver, run_and_forget, on_etcd, on_os, register}
use hambone.Etcd.Client.{Etcd}
use hambone.Etcd.Adapter.{get_session_and_mutex}
use hambone.Git.Cleanup.{cleanup_error}
use hambone.Git.Commands.{unknown, wrap, run_command, git_pull, ensure_clean_file, rollback_command}
use hambone.Git.Getter.{Vars}

-- The fields of `gitUpdater` and of `gitDeleter`, which are the same.
pub record WriterFields : Type 0 where
  pub instance_dir : String
  pub instance_file : String
  pub working_dir : String

abbrev pub WriterCall : Type 0 → Type 0 → Type 0
WriterCall S O = Call (World S O Vars) Instance (Receiver S WriterFields)

module _ {O : Type 0} (os : Os O) where
  -- The comparison of OldInstance with the file, up to white space at the ends.
  abbrev pub compare_file : OldInstance → String → Action O Unit₀
  compare_file old contents =
      fail_if (not (trim_space old.kustomization_yaml == trim_space contents))
        old_instance_differs_error

  unfoldable pub compare_old : String → Option OldInstance → Action O Unit₀
  compare_old instance_file none = skip
  compare_old instance_file (some old) = do
    absent ← os.not_exist instance_file
    fail_if absent instance_no_exist_error
    contents ← wrap (unknown "error reading instanceFile: ") (os.read_file instance_file)
    compare_file old contents

  -- The loop over `Files`
  unfoldable pub write_files : String → List File → Action O Unit₀
  write_files instance_dir [] = skip
  write_files instance_dir (file ∷ files) =
      wrap (unknown "") (os.mkdir_all (instance_dir <> ("/" <> file.directory)))
      >> (wrap (unknown "") (os.write_file (instance_dir <> ("/" <> file.name)) file.contents)
          >> write_files instance_dir files)

  unfoldable pub write_instance : WriterFields → Instance → Action O Unit₀
  unfolding write_files
  write_instance fields instance = do
    wrap (unknown "") (os.mkdir_all fields.instance_dir)
    wrap (unknown "") (os.write_file fields.instance_file instance.kustomization_yaml)
    write_files fields.instance_dir instance.files

  abbrev pub rolled_back : WriterFields → String → List String → Action O Unit₀
  rolled_back fields text args =
      wrap (unknown text) (rollback_command os fields.instance_dir fields.instance_file "git" args)

  abbrev pub commit_and_push : WriterFields → String → Action O Unit₀
  commit_and_push fields name = do
    rolled_back fields "git commit error: "
        ("commit" ∷ "-m" ∷ ("Automate hambone apply for " <> name) ∷ [])
    rolled_back fields "git push error: " ("push" ∷ [])

  -- Nothing is done if `git diff` finds no change.
  unfoldable pub commit_files : Bool → WriterFields → String → Action O Unit₀
  commit_files skip_commit fields name =
      check
        (run_command os (λ e _. e) "git"
          ("diff" ∷ "--exit-code" ∷ "HEAD" ∷ fields.working_dir ∷ []))
        (λ _.
          rolled_back fields "git add error: " ("add" ∷ fields.instance_dir ∷ [])
          >> (if skip_commit then skip else commit_and_push fields name))
        skip

  abbrev pub prepare : WriterFields → Instance → Action O Unit₀
  prepare fields instance = do
    git_pull os
    ensure_clean_file os fields.instance_dir
    compare_old fields.instance_file instance.old_instance
    write_instance fields instance

module _ {S O : Type 0} (E : Etcd S) where
  -- The lock that is taken if a key for it was configured, and the cleanups that undo it.
  abbrev pub lock_git : String → String → String → Action (WriterCall S O) Unit₀
  lock_git cancel_name session_name mutex_name = do
    vars ← gets (λ c. c.world.vars)
    client ← on_etcd (wrap (unknown "error getting etcd client: ") (E.new_client vars.endpoints))
    locked ← on_etcd (
        wrap (unknown "error getting etcd session: ")
          (get_session_and_mutex E client vars.etcd_locks_git_key))
    register cancel_name (E.cancel locked.0)
    register session_name (E.close_session locked.1)
    register mutex_name (E.unlock locked.2)

  unfoldable pub lock_if_wanted : String → String → String → Action (WriterCall S O) Unit₀
  lock_if_wanted cancel_name session_name mutex_name c =
      if c.world.vars.etcd_locks_git_key == ""
      then skip c
      else lock_git cancel_name session_name mutex_name c

module _ {S O : Type 0} (E : Etcd S) (os : Os O) where
  unfoldable pub init : Action (WriterCall S O) Unit₀
  unfolding lock_if_wanted
  init = do
    lock_if_wanted E "(*gitUpdater).Init.func1" "(*gitUpdater).Init.func2"
        "(*gitUpdater).Init.func3"
    (λ c. on_os (prepare os c.self.fields c.shared) c)

  unfoldable pub cancel : Error → Action (WriterCall S O) Unit₀
  cancel e = fail e

  unfoldable pub commit : Bool → Action (WriterCall S O) Unit₀
  unfolding commit_files
  commit skip_commit c = on_os (commit_files os skip_commit c.self.fields c.shared.name) c

module _ {S O : Type 0} where
  abbrev pub run_cleanup_funcs : Action (WriterCall S O) Unit₀
  run_cleanup_funcs = run_and_forget cleanup_error
