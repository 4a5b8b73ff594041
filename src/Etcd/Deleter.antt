-- ===== src/Etcd/Deleter.antt =====
-- `etcdDeleter`
pub mod Laws
pub mod Registered
use hambone.Base.{String, ◌<>◌, Bool, not, Option, none, some, List, [], ◌∷◌, length, decimal}
use hambone.Go.{
  Error, plain, Action, Unit₀, pure, fail, fail_if, gets, modify, skip, ◌>>=◌, ◌>>◌, panic,
}
use hambone.Pb.{Instance}
use hambone.Sys.{Os}
use hambone.State.Method.{Call}
use hambone.State.Receiver.{World, Receiver, on_etcd, run_and_forget}
use hambone.Etcd.Client.{Etcd, KeyValue}
use hambone.Etcd.Adapter.{get_instance_key}
use hambone.Etcd.Updater.{WriterCall, open_client, take_lock, check_old, write_instance}

module _ {S O : Type 0} (E : Etcd S) (os : Os O) where
  abbrev Method : Type 0 → Type 0
  Method = Action (WriterCall S O E.Client)

  abbrev pub ensure_exists : E.Client → Method Unit₀
  ensure_exists client = do
    name ← gets (λ c. c.shared.name)
    present ← on_etcd (E.key_exists client (get_instance_key name))
    fail_if (not present) (plain ("No etcd key found for " <> name))

  -- The stored yaml goes into the Instance that the caller holds too.
  abbrev pub adopt : List KeyValue → Method Unit₀
  adopt (kv ∷ []) =
      modify (λ c. record c { shared = record c.shared { kustomization_yaml = kv.value } })
  adopt kvs = fail (plain ("Expected 1 key-value set, got " <> decimal (length kvs)))

  unfoldable pub init : Method Unit₀
  init = do
    client ← open_client E os "(*etcdDeleter).Init.func1"
    ensure_exists client
    take_lock E os "(*etcdDeleter).Init.func2" "(*etcdDeleter).Init.func3"
        "(*etcdDeleter).Init.func4" client
    check_old E os client
    key ← gets (λ c. get_instance_key c.shared.name)
    kvs ← on_etcd (E.get client key)
    adopt kvs
    write_instance E os

  unfoldable pub cancel : Error → Method Unit₀
  cancel e = fail e

  abbrev pub delete_instance : Option E.Client → String → Action S Unit₀
  delete_instance none key = panic "nil pointer dereference"
  delete_instance (some client) key = E.delete_prefix client key

  unfoldable pub commit : Method Unit₀
  commit c = on_etcd (delete_instance c.self.fields.client (get_instance_key c.shared.name)) c

  unfoldable pub run_cleanup_funcs : Method Unit₀
  unfolding run_and_forget
  run_cleanup_funcs = run_and_forget plain
