-- ===== src/Etcd/Getter.antt =====
-- `etcdGetter` and `etcdTemplatesGetter`
pub mod Run
pub mod Keeps
use hambone.Base.{
  String, ◌<>◌, Bool, true, false, Option, none, some, List, [], ◌∷◌, ◌++◌, map, ◌==◌,
  if◌then◌else◌,
}
use hambone.Go.{Error, plain, Result, ok, err, Action, Unit₀, pure, gets, modify, skip, ◌>>=◌, ◌>>◌}
use hambone.Pb.{Instance, InstanceList, GetOptions}
use hambone.State.Method.{Call}
use hambone.State.Page.{page}
use hambone.State.Receiver.{World, Receiver, on_etcd, register, run_and_forget}
use hambone.Etcd.Client.{Etcd, KeyValue}
use hambone.Etcd.Adapter.{instance_key_prefix, get_instance_key, strip_instance_key_prefix}

-- `etcdGetter`
pub record GetterFields : Type 0 where
  pub options : GetOptions
  pub instances_dir : String

abbrev pub instance_of : KeyValue → Instance
instance_of kv = record {
  name = strip_instance_key_prefix kv.key;
  kustomization_yaml = kv.value;
  statuses = [];
  statuses_error_message = "";
  old_instance = none;
  files = [];
}

abbrev pub GetMethod : Type 0 → Type 0 → Type 0 → Type 0
GetMethod S O F = Action (Call (World S O (List String)) InstanceList (Receiver S F)) Unit₀

-- The filter by start and stop, on the whole list. It is left out if a name was asked for.
abbrev pub filter_list : GetOptions → InstanceList → Result InstanceList
filter_list options list = if options.name == "" then page options list else ok list

module _ {S : Type 0} (E : Etcd S) where
  -- `Get` of the key of a name, or of all keys of Instances.
  abbrev pub fetch : E.Client → GetOptions → Action S (List KeyValue)
  fetch client options =
      if options.name == ""
      then E.get_prefix client instance_key_prefix
      else E.get client (get_instance_key options.name)

module _ {S O : Type 0} (E : Etcd S) where
  unfoldable pub run : GetMethod S O GetterFields
  unfolding page
  run = do
    endpoints ← gets (λ c. c.world.vars)
    client ← on_etcd (E.new_client endpoints)
    register "(*etcdGetter).Run.func1" (E.close_client client)
    options ← gets (λ c. c.self.fields.options)
    kvs ← on_etcd (fetch E client options)
    modify (λ c. record c { shared = c.shared ++ map instance_of kvs })
    list ← (λ c. (filter_list options c.shared, c))
    modify (λ c. record c { shared = list })

  unfoldable pub run_cleanup_funcs : GetMethod S O GetterFields
  unfolding run_and_forget
  run_cleanup_funcs = run_and_forget plain

-- `etcdTemplatesGetter`: its `Run` is still to be written, and returns nil at once.
pub record TemplatesGetterFields : Type 0 where
  pub templates_dir : String

module _ {S O : Type 0} where
  unfoldable pub run_templates : GetMethod S O TemplatesGetterFields
  run_templates = skip

  unfoldable pub run_templates_cleanup_funcs : GetMethod S O TemplatesGetterFields
  unfolding run_and_forget
  run_templates_cleanup_funcs = run_and_forget plain
