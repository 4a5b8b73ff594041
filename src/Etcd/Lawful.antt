-- ===== src/Etcd/Lawful.antt =====
-- What the adapters rely on of an etcd cluster that no other client writes meanwhile. `value` is
-- what is stored under a key. The keys of the lock recipe are "<lock name>/<lease>", and every lock
-- of the program is named "<key>-lock": its calls write no key without that mark.
use hambone.Base.{
  String, Bool, true, false, Option, none, some, List, [], ◌∷◌, ◌≡◌, contains, starts_with, ◌==◌,
  if◌then◌else◌,
}
use hambone.Go.{ok}
use hambone.Etcd.Client.{Etcd, KeyValue}

abbrev pub is_some : Option String → Bool
is_some none = false
is_some (some v) = true

-- The answer to a `Get` of one key.
abbrev pub entry : String → Option String → List KeyValue
entry k none = []
entry k (some v) = record { key = k; value = v } ∷ []

abbrev pub find : String → List KeyValue → Option String
find k [] = none
find k (kv ∷ kvs) = if k == kv.key then some kv.value else find k kvs

abbrev pub IsStorageKey : String → Type 0
IsStorageKey j = contains j "-lock/" ≡ false

pub record IsLawful {S : Type 0} (E : Etcd S) : Type 0 where
  pub value : S → String → Option String
  pub get_value : (c : E.Client) (k j : String) (s : S) → value (E.get c k s).1 j ≡ value s j
  pub get_ok :
      (c : E.Client) (k : String) (s : S) {kvs : List KeyValue}
      → (E.get c k s).0 ≡ ok kvs
      → kvs ≡ entry k (value s k)
  pub get_prefix_value :
      (c : E.Client) (k j : String) (s : S) → value (E.get_prefix c k s).1 j ≡ value s j
  pub get_prefix_ok :
      (c : E.Client) (p j : String) (s : S) {kvs : List KeyValue}
      → (E.get_prefix c p s).0 ≡ ok kvs
      → find j kvs ≡ (if starts_with j p then value s j else none)
  pub key_exists_value :
      (c : E.Client) (k j : String) (s : S) → value (E.key_exists c k s).1 j ≡ value s j
  pub key_exists_ok :
      (c : E.Client) (k : String) (s : S) {b : Bool}
      → (E.key_exists c k s).0 ≡ ok b
      → b ≡ is_some (value s k)
  pub put_ok :
      (c : E.Client) (k v j : String) (s : S)
      → (E.put c k v s).0 ≡ ok tt
      → value (E.put c k v s).1 j ≡ (if j == k then some v else value s j)
  pub delete_prefix_ok :
      (c : E.Client) (p j : String) (s : S)
      → (E.delete_prefix c p s).0 ≡ ok tt
      → value (E.delete_prefix c p s).1 j ≡ (if starts_with j p then none else value s j)
  pub new_client_value :
      (es : List String) (j : String) (s : S) → value (E.new_client es s).1 j ≡ value s j
  pub close_client_value :
      (c : E.Client) (j : String) (s : S) → value (E.close_client c s).1 j ≡ value s j
  pub with_timeout_value : (j : String) (s : S) → value (E.with_timeout s).1 j ≡ value s j
  pub cancel_value : (c : E.Context) (j : String) (s : S) → value (E.cancel c s).1 j ≡ value s j
  pub new_session_value :
      (c : E.Client) (x : E.Context) (j : String) (s : S)
      → value (E.new_session c x s).1 j ≡ value s j
  pub close_session_value :
      (x : E.Session) (j : String) (s : S)
      → IsStorageKey j
      → value (E.close_session x s).1 j ≡ value s j
  pub lock_value :
      (m : E.Mutex) (j : String) (s : S) → IsStorageKey j → value (E.lock m s).1 j ≡ value s j
  pub unlock_value :
      (m : E.Mutex) (j : String) (s : S) → IsStorageKey j → value (E.unlock m s).1 j ≡ value s j
