-- ===== src/Git/Deleter.antt =====
-- `gitDeleter`
use hambone.Base.{String, ◌<>◌, [], ◌∷◌}
use hambone.Go.{Error, Code, status, Action, Unit₀, fail_if, skip, ◌>>=◌, ◌>>◌}
use hambone.Pb.{Instance}
use hambone.Sys.{Os}
use hambone.State.Receiver.{on_os, run_and_forget}
use hambone.Etcd.Client.{Etcd}
use hambone.Git.Cleanup.{cleanup_error}
use hambone.Git.Commands.{unknown, run_command, git_pull, ensure_clean_file}
use hambone.Git.Updater.{WriterFields, WriterCall, compare_old, lock_if_wanted}

module _ {O : Type 0} (os : Os O) where
  abbrev pub examine : WriterFields → Instance → Action O Unit₀
  examine fields instance = do
    git_pull os
    absent ← os.not_exist fields.instance_file
    fail_if absent
        (status Code.not_found ("Instance not found at `" <> (fields.instance_file <> "`")))
    ensure_clean_file os fields.instance_dir
    compare_old os fields.instance_file instance.old_instance

  unfoldable pub delete_files : WriterFields → String → Action O Unit₀
  unfolding run_command
  delete_files fields name = do
    run_command os (λ e _. unknown "git rm -rf error: " e) "git"
        ("rm" ∷ "-rf" ∷ fields.instance_dir ∷ [])
    run_command os (λ e _. unknown "git commit error: " e) "git"
        ("commit" ∷ "-m" ∷ ("Automate hambone delete for " <> name) ∷ [])
    run_command os (λ e _. unknown "git push error: " e) "git" ("push" ∷ [])

module _ {S O : Type 0} (E : Etcd S) (os : Os O) where
  unfoldable pub init : Action (WriterCall S O) Unit₀
  unfolding lock_if_wanted
  init = do
    lock_if_wanted E "(*gitDeleter).Init.func1" "(*gitDeleter).Init.func2"
        "(*gitDeleter).Init.func3"
    (λ c. on_os (examine os c.self.fields c.shared) c)

  -- The error is dropped.
  unfoldable pub cancel : Error → Action (WriterCall S O) Unit₀
  cancel e = skip

  unfoldable pub commit : Action (WriterCall S O) Unit₀
  unfolding delete_files
  commit c = on_os (delete_files os c.self.fields c.shared.name) c

module _ {S O : Type 0} where
  abbrev pub run_cleanup_funcs : Action (WriterCall S O) Unit₀
  run_cleanup_funcs = run_and_forget cleanup_error
