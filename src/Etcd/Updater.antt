-- ===== src/Etcd/Updater.antt =====
-- `etcdUpdater`
pub mod Init
pub mod Commit
pub mod Cleanup
use hambone.Base.{String, ◌<>◌, Bool, Option, none, some, List, [], ◌∷◌}
use hambone.Go.{Error, plain, Action, Unit₀, pure, fail, gets, modify, skip, ◌>>=◌, ◌>>◌, panic}
use hambone.Pb.{Instance, File}
use hambone.Sys.{Os}
use hambone.Helpers.{mkdir_file}
use hambone.State.Method.{Call}
use hambone.State.Receiver.{World, Receiver, on_etcd, on_os, register, run_and_forget}
use hambone.Etcd.Client.{Etcd}
use hambone.Etcd.Adapter.{
  get_instance_key, get_file_key, get_session_and_mutex,
  old_instance_equals_current_instance_if_set, write_files,
}

-- The fields of `etcdUpdater` and of `etcdDeleter`, which are the same. `none` is a nil client.
pub record WriterFields (C : Type 0) : Type 0 where
  pub instance_dir : String
  pub instance_file : String
  pub client : Option C

abbrev pub WriterCall : Type 0 → Type 0 → Type 0 → Type 0
WriterCall S O C = Call (World S O (List String)) Instance (Receiver S (WriterFields C))

module _ {S O : Type 0} (E : Etcd S) (os : Os O) where
  abbrev Method : Type 0 → Type 0
  Method = Action (WriterCall S O E.Client)

  -- `clientv3.New`, its result in the field `clientV3`, and `Close` among the cleanups.
  abbrev pub open_client : String → Method E.Client
  open_client name = do
    endpoints ← gets (λ c. c.world.vars)
    client ← on_etcd (E.new_client endpoints)
    modify (λ c. record c {
      self = record c.self { fields = record c.self.fields { client = some client } };
    })
    register name (E.close_client client)
    pure client

  -- `GetSessionAndMutex` under the key of the Instance, and the three cleanups that undo it.
  abbrev pub take_lock : String → String → String → E.Client → Method Unit₀
  take_lock cancel_name session_name mutex_name client = do
    key ← gets (λ c. get_instance_key c.shared.name)
    locked ← on_etcd (get_session_and_mutex E client key)
    register cancel_name (E.cancel locked.0)
    register session_name (E.close_session locked.1)
    register mutex_name (E.unlock locked.2)

  abbrev pub check_old : E.Client → Method Unit₀
  check_old client c =
      on_etcd
        (old_instance_equals_current_instance_if_set E client (get_instance_key c.shared.name)
          c.shared.old_instance)
        c

  abbrev pub write_instance : Method Unit₀
  write_instance c =
      on_os
        (mkdir_file os c.self.fields.instance_file c.shared.kustomization_yaml
          >> write_files os c.self.fields.instance_dir c.shared.files)
        c

  unfoldable pub init : Method Unit₀
  init = do
    client ← open_client "(*etcdUpdater).Init.func1"
    take_lock "(*etcdUpdater).Init.func2" "(*etcdUpdater).Init.func3" "(*etcdUpdater).Init.func4"
        client
    check_old client
    write_instance

  unfoldable pub cancel : Error → Method Unit₀
  cancel e = fail e

  unfoldable pub put_files : E.Client → String → List File → Action S Unit₀
  unfolding get_file_key
  put_files client key [] = skip
  put_files client key (file ∷ files) =
      E.put client (get_file_key key file.name) file.contents >> put_files client key files

  -- A method call on a nil client panics.
  abbrev pub put_instance : Option E.Client → String → String → List File → Action S Unit₀
  put_instance none key yaml files = panic "nil pointer dereference"
  put_instance (some client) key yaml files = E.put client key yaml >> put_files client key files

  unfoldable pub commit : Bool → Method Unit₀
  unfolding put_files
  commit _ c =
      on_etcd
        (put_instance c.self.fields.client (get_instance_key c.shared.name)
          c.shared.kustomization_yaml c.shared.files)
        c

  unfoldable pub run_cleanup_funcs : Method Unit₀
  unfolding run_and_forget
  run_cleanup_funcs = run_and_forget plain
