-- ===== src/Etcd/Adapter.antt =====
-- What the getter, the updater and the deleter of the etcd adapter share.
use hambone.Base.{String, ◌<>◌, not, Option, none, some, List, [], ◌∷◌, length, ◌==◌, decimal}
use hambone.Go.{plain, err, Action, Unit₀, pure, fail, fail_if, skip, rescue, ◌>>=◌, ◌>>◌}
use hambone.Go.FilePath.{join_path}
use hambone.Pb.{File, OldInstance}
use hambone.Sys.{Os}
use hambone.Helpers.{mkdir_file}
use hambone.State.{instance_no_exist_error, old_instance_differs_error}
use hambone.Etcd.Client.{Etcd, KeyValue}
use Prim.Native.String.{len, slice}

abbrev pub instance_key_prefix : String
instance_key_prefix = "hambone_instance_"

unfoldable pub get_instance_key : String → String
get_instance_key name = instance_key_prefix <> name

unfoldable pub get_file_key : String → String → String
get_file_key instance_key name = instance_key <> ("/" <> name)

-- `name[len(instanceKeyPrefix):]`
unfoldable pub strip_instance_key_prefix : String → String
strip_instance_key_prefix name = slice name (len instance_key_prefix) (len name)

module _ {S : Type 0} (E : Etcd S) where
  open E use {Client, Context, Session, Mutex}

  -- `GetSessionAndMutex`. After an error no caller uses the context, so its `cancel` is not returned.
  unfoldable pub get_session_and_mutex : Client → String → Action S (Context × Session × Mutex)
  get_session_and_mutex client key = do
    context ← E.with_timeout
    session ← E.new_session client context
    let mutex = E.new_mutex session (key <> "-lock")
    rescue (E.lock mutex) (λ e s. (err e, (E.close_session session s).1))
    pure (context, session, mutex)

  -- `oldInstanceEqualsCurrentInstanceIfSet`
  abbrev pub compare_old : OldInstance → List KeyValue → Action S Unit₀
  compare_old old (kv ∷ []) =
      fail_if (not (kv.value == old.kustomization_yaml)) old_instance_differs_error
  compare_old old kvs = fail (plain ("Expected 1 key-value set, got " <> decimal (length kvs)))

  unfoldable pub old_instance_equals_current_instance_if_set :
      Client → String → Option OldInstance → Action S Unit₀
  old_instance_equals_current_instance_if_set client key none = skip
  old_instance_equals_current_instance_if_set client key (some old) = do
    present ← E.key_exists client key
    fail_if (not present) instance_no_exist_error
    kvs ← E.get client key
    compare_old old kvs

module _ {O : Type 0} (os : Os O) where
  -- The loop over `Files` at the end of both `Init` methods.
  unfoldable pub write_files : String → List File → Action O Unit₀
  unfolding mkdir_file
  write_files instance_dir [] = skip
  write_files instance_dir (file ∷ files) =
      mkdir_file os (join_path instance_dir file.name) file.contents
      >> write_files instance_dir files
