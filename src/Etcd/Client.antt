-- ===== src/Etcd/Client.antt =====
-- What the adapters ask of an etcd cluster: the packages `clientv3`, `clientv3util` and
-- `concurrency`. The state behind these calls is the parameter `S`.
use hambone.Base.{String, List, Bool}
use hambone.Go.{Action, Unit₀}

-- `mvccpb.KeyValue`
pub record KeyValue : Type 0 where
  pub key : String
  pub value : String

pub record Etcd (S : Type 0) : Type 1 where
  pub Client : Type 0
  pub Context : Type 0
  pub Session : Type 0
  pub Mutex : Type 0
  pub new_client : List String → Action S Client
  pub close_client : Client → Action S Unit₀
  -- `Get` of one key, and of a prefix with the keys in ascending order
  pub get : Client → String → Action S (List KeyValue)
  pub get_prefix : Client → String → Action S (List KeyValue)
  pub put : Client → String → String → Action S Unit₀
  -- `Delete` with `WithPrefix`
  pub delete_prefix : Client → String → Action S Unit₀
  -- `Txn().If(clientv3util.KeyExists(key)).Commit()`, and the field `Succeeded` of its response
  pub key_exists : Client → String → Action S Bool
  pub with_timeout : Action S Context
  pub cancel : Context → Action S Unit₀
  pub new_session : Client → Context → Action S Session
  pub close_session : Session → Action S Unit₀
  pub new_mutex : Session → String → Mutex
  pub lock : Mutex → Action S Unit₀
  pub unlock : Mutex → Action S Unit₀
