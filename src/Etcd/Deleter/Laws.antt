-- ===== src/Etcd/Deleter/Laws.antt =====
-- What `Init` and `Commit` of the etcd deleter do to what is stored.
use hambone.Base.{
  String, ◌<>◌, ◌≡◌, refl, ◌∙◌, ap, Option, none, some, List, [], ◌∷◌, arith, starts_with,
  if◌then◌else◌,
}
use hambone.Go.{ok}
use hambone.Sys.{Os}
use hambone.Etcd.Client.{Etcd, KeyValue}
use hambone.Etcd.Adapter.{get_instance_key}
use hambone.Etcd.Keys.{longer_key-starts_with}
use hambone.Etcd.Lawful.{IsLawful, IsStorageKey}
use hambone.Etcd.Stored.{get_session_and_mutex-keeps, old_instance-keeps}
use hambone.Etcd.Updater.{WriterCall}
use hambone.Etcd.Deleter.{init, commit, adopt, delete_instance}

module _ {S O : Type 0} (E : Etcd S) (os : Os O) where
  pub adopt-etcd :
      (kvs : List KeyValue) (c : WriterCall S O E.Client)
      → (adopt E os kvs c).1.world.etcd ≡ c.world.etcd
  adopt-etcd [] c = refl
  adopt-etcd (kv ∷ []) c = refl
  adopt-etcd (kv ∷ more ∷ kvs) c = refl

module _ {S O : Type 0} (E : Etcd S) (L : IsLawful E) (os : Os O) where
  abbrev key_of : WriterCall S O E.Client → String
  key_of c = get_instance_key c.shared.name

  -- On a lawful cluster `Init` of the etcd deleter, however it ends, changes nothing that is stored
  -- under a key without the mark of a lock.
  pub init-preserves :
      (c : WriterCall S O E.Client) (j : String)
      → IsStorageKey j
      → L.value (init E os c).1.world.etcd j ≡ L.value c.world.etcd j
  unfolding init
  init-preserves c j storage = grind (
    arith,
    L.new_client_value,
    L.key_exists_value,
    L.get_value,
    get_session_and_mutex-keeps E L j,
    old_instance-keeps E L j,
    adopt-etcd E os,
  )

  delete_instance-value :
      (client : Option E.Client) (key j : String) (s : S)
      → (delete_instance E os client key s).0 ≡ ok tt
      → L.value (delete_instance E os client key s).1 j
        ≡ (if starts_with j key then none else L.value s j)
  delete_instance-value none key j s h = cc
  delete_instance-value (some client) key j s h = L.delete_prefix_ok client key j s h

  -- On a lawful cluster a commit of the etcd deleter that returns nil has deleted every key that
  -- begins with the key of the Instance, and has left every other key alone.
  pub commit-deletes :
      (c : WriterCall S O E.Client) (j : String)
      → (commit E os c).0 ≡ ok tt
      → L.value (commit E os c).1.world.etcd j
        ≡ (if starts_with j (key_of c) then none else L.value c.world.etcd j)
  unfolding commit
  commit-deletes c j h = delete_instance-value c.self.fields.client (key_of c) j c.world.etcd h

  -- On a lawful cluster a commit of the etcd deleter that returns nil has, beside the Instance,
  -- deleted each Instance whose name is the name of the deleted one with more text behind it.
  pub commit-deletes_others :
      (c : WriterCall S O E.Client) (more : String)
      → (commit E os c).0 ≡ ok tt
      → L.value (commit E os c).1.world.etcd (get_instance_key (c.shared.name <> more)) ≡ none
  commit-deletes_others c more h =
      commit-deletes c (get_instance_key (c.shared.name <> more)) h
      ∙ ap
          (λ b. if b then none else L.value c.world.etcd (get_instance_key (c.shared.name <> more)))
          (longer_key-starts_with c.shared.name more)
