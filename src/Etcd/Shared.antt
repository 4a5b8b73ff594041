-- ===== src/Etcd/Shared.antt =====
-- What the adapters rely on of an etcd cluster that other clients write to at the same time: between
-- any two calls, and during a call, each key may change as others like, unless this client holds the
-- mutex that protects it. "<key>-lock" protects `key`; the others are taken to keep to it, and the
-- lease behind a mutex to outlive the request. `history` has what a key has held, the latest first.
pub mod Compared
pub mod Swaps
use hambone.Base.{
  String, ◌<>◌, Bool, true, Option, none, some, List, [], ◌∷◌, ◌++◌, ◌≡◌, starts_with, ◌==◌,
  if◌then◌else◌,
}
use hambone.Go.{ok}
use hambone.Etcd.Client.{Etcd, KeyValue}
use hambone.Etcd.Lawful.{is_some, entry}

abbrev pub History : Type 0
History = List (Option String)

abbrev pub latest : History → Option String
latest [] = none
latest (v ∷ h) = v

-- The name of the mutex that protects a key.
abbrev pub lock_name : String → String
lock_name key = key <> "-lock"

pub record IsShared {S : Type 0} (E : Etcd S) : Type 0 where
  pub history : S → String → History
  pub holds : S → String → Bool
  pub lock_holds :
      (x : E.Session) (n : String) (s : S)
      → (E.lock (E.new_mutex x n) s).0 ≡ ok tt
      → holds (E.lock (E.new_mutex x n) s).1 n ≡ true
  pub key_exists_holds :
      (c : E.Client) (i k : String) (s : S)
      → holds s (lock_name k) ≡ true
      → holds (E.key_exists c i s).1 (lock_name k) ≡ true
  pub key_exists_history :
      (c : E.Client) (i k : String) (s : S)
      → holds s (lock_name k) ≡ true
      → history (E.key_exists c i s).1 k ≡ history s k
  pub get_holds :
      (c : E.Client) (i k : String) (s : S)
      → holds s (lock_name k) ≡ true
      → holds (E.get c i s).1 (lock_name k) ≡ true
  pub get_history :
      (c : E.Client) (i k : String) (s : S)
      → holds s (lock_name k) ≡ true
      → history (E.get c i s).1 k ≡ history s k
  pub get_latest :
      (c : E.Client) (k : String) (s : S) {kvs : List KeyValue}
      → holds s (lock_name k) ≡ true
      → (E.get c k s).0 ≡ ok kvs
      → kvs ≡ entry k (latest (history s k))
  pub put_holds :
      (c : E.Client) (i v k : String) (s : S)
      → holds s (lock_name k) ≡ true
      → holds (E.put c i v s).1 (lock_name k) ≡ true
  pub put_history :
      (c : E.Client) (i v k : String) (s : S)
      → holds s (lock_name k) ≡ true
      → (E.put c i v s).0 ≡ ok tt
      → history (E.put c i v s).1 k ≡ (if k == i then some v ∷ history s k else history s k)
  pub delete_prefix_history :
      (c : E.Client) (p k : String) (s : S)
      → holds s (lock_name k) ≡ true
      → (E.delete_prefix c p s).0 ≡ ok tt
      → history (E.delete_prefix c p s).1 k
        ≡ (if starts_with k p then none ∷ history s k else history s k)
  -- Giving something back writes nothing of its own: what follows is others' doing.
  pub close_client_later :
      (c : E.Client) (k : String) (s : S)
      → (more : History) × (history (E.close_client c s).1 k ≡ more ++ history s k)
  pub cancel_later :
      (x : E.Context) (k : String) (s : S)
      → (more : History) × (history (E.cancel x s).1 k ≡ more ++ history s k)
  pub close_session_later :
      (x : E.Session) (k : String) (s : S)
      → (more : History) × (history (E.close_session x s).1 k ≡ more ++ history s k)
  pub unlock_later :
      (m : E.Mutex) (k : String) (s : S)
      → (more : History) × (history (E.unlock m s).1 k ≡ more ++ history s k)
