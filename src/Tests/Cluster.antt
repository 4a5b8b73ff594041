-- ===== src/Tests/Cluster.antt =====
-- A cluster that is a list of the keys and what they hold. Locks are free and nothing fails.
use hambone.Base.{
  String, Bool, not, Bool-cases, ◌≡◌, refl, inl, inr, none, some, List, [], ◌∷◌, arith, ◌==◌,
  String-discrete, if◌then◌else◌, starts_with,
}
use hambone.Go.{ok, Unit₀}
use hambone.Etcd.Client.{Etcd, KeyValue}
use hambone.Etcd.Lawful.{IsLawful, is_some, entry, find}
use hambone.Etcd.Updater.Cleanup.{IsQuiet}

abbrev pub Store : Type 0
Store = List KeyValue

-- The entries whose keys pass a test.
abbrev pub keep : (String → Bool) → Store → Store
keep q [] = []
keep q (kv ∷ s) = if q kv.key then kv ∷ keep q s else keep q s

pub find-keep :
    (q : String → Bool) (j : String) (s : Store)
    → find j (keep q s) ≡ (if q j then find j s else none)
find-keep q j [] = elim (Bool-cases (q j)) [ inl e ↦ ground arith | inr e ↦ ground arith ]
find-keep q j (kv ∷ s) = elim (String-discrete j kv.key) [
  | yes e ↦ ground (arith, e, find-keep q j s)
  | no n ↦ ground (arith, n, find-keep q j s)
]

pub find-keep_ok :
    (q : String → Bool) (j : String) (s kvs : Store)
    → ok (keep q s) ≡ ok kvs
    → find j kvs ≡ (if q j then find j s else none)
find-keep_ok q j s kvs h = let same : keep q s ≡ kvs = cc in rw (← same) (find-keep q j s)

abbrev pub cluster : Etcd Store
cluster = record {
  Client = Unit₀;
  Context = Unit₀;
  Session = Unit₀;
  Mutex = String;
  new_client = λ endpoints s. (ok tt, s);
  close_client = λ client s. (ok tt, s);
  get = λ client key s. (ok (entry key (find key s)), s);
  get_prefix = λ client prefix s. (ok (keep (λ k. starts_with k prefix) s), s);
  put = λ client key value s.
      (ok tt, record { key = key; value = value } ∷ keep (λ k. not (k == key)) s);
  delete_prefix = λ client prefix s. (ok tt, keep (λ k. not (starts_with k prefix)) s);
  key_exists = λ client key s. (ok (is_some (find key s)), s);
  with_timeout = λ s. (ok tt, s);
  cancel = λ context s. (ok tt, s);
  new_session = λ client context s. (ok tt, s);
  close_session = λ session s. (ok tt, s);
  new_mutex = λ session name. name;
  lock = λ mutex s. (ok tt, s);
  unlock = λ mutex s. (ok tt, s);
}

pub ok-injective : {A : Type 0} (a b : A) → ok a ≡ ok b → b ≡ a
ok-injective a b h = cc

pub find-put :
    (k v j : String) (s : Store)
    → find j (record { key = k; value = v } ∷ keep (λ i. not (i == k)) s)
      ≡ (if j == k then some v else find j s)
find-put k v j s = ground (arith, find-keep (λ i. not (i == k)) j s)

pub find-delete :
    (p j : String) (s : Store)
    → find j (keep (λ k. not (starts_with k p)) s) ≡ (if starts_with j p then none else find j s)
find-delete p j s = ground (arith, find-keep (λ k. not (starts_with k p)) j s)

abbrev pub lawful_cluster : IsLawful cluster
lawful_cluster = record {
  value = λ s k. find k s;
  get_value = λ c k j s. refl;
  get_ok = λ c k s h. ok-injective _ _ h;
  get_prefix_value = λ c k j s. refl;
  get_prefix_ok = λ c p j s h. find-keep_ok (λ k. starts_with k p) j s _ h;
  key_exists_value = λ c k j s. refl;
  key_exists_ok = λ c k s h. ok-injective _ _ h;
  put_ok = λ c k v j s h. find-put k v j s;
  delete_prefix_ok = λ c p j s h. find-delete p j s;
  new_client_value = λ es j s. refl;
  close_client_value = λ c j s. refl;
  with_timeout_value = λ j s. refl;
  cancel_value = λ c j s. refl;
  new_session_value = λ c x j s. refl;
  close_session_value = λ x j s h. refl;
  lock_value = λ m j s h. refl;
  unlock_value = λ m j s h. refl;
}

pub quiet_cluster : IsQuiet cluster
quiet_cluster = record {
  close_client_quiet = λ c s p h. cc;
  cancel_quiet = λ x s p h. cc;
  close_session_quiet = λ x s p h. cc;
  unlock_quiet = λ m s p h. cc;
}
