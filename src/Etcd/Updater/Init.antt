-- ===== src/Etcd/Updater/Init.antt =====
-- What `Init` of the etcd updater promises: it changes nothing that is stored, and it lets a
-- request with an OldInstance pass only if that is what is stored.
use hambone.Base.{String, ◌≡◌, ◌≢◌, some, arith}
use hambone.Go.{ok, ◌>>◌}
use hambone.Pb.{OldInstance}
use hambone.Sys.{Os}
use hambone.Etcd.Client.{Etcd}
use hambone.Etcd.Adapter.{get_instance_key}
use hambone.Etcd.Lawful.{IsLawful, IsStorageKey}
use hambone.Etcd.Stored.{get_session_and_mutex-keeps, old_instance-keeps, old_instance-ok}
use hambone.Etcd.Updater.{WriterCall, init, check_old, write_instance}

module _ {S O : Type 0} (E : Etcd S) (L : IsLawful E) (os : Os O) where
  abbrev key_of : WriterCall S O E.Client → String
  key_of c = get_instance_key c.shared.name

  -- On a lawful cluster `Init` of the etcd updater, however it ends, changes nothing that is stored
  -- under a key without the mark of a lock.
  pub init-keeps :
      (c : WriterCall S O E.Client) (j : String)
      → IsStorageKey j
      → L.value (init E os c).1.world.etcd j ≡ L.value c.world.etcd j
  unfolding init
  init-keeps c j storage =
      grind (arith, L.new_client_value, get_session_and_mutex-keeps E L j, old_instance-keeps E L j)

  -- The comparison and the writes, at a state where OldInstance is not what is stored.
  check_old-stale :
      (client : E.Client) (c : WriterCall S O E.Client) (old : OldInstance)
      → c.shared.old_instance ≡ some old
      → L.value c.world.etcd (key_of c) ≢ some old.kustomization_yaml
      → (((check_old E os client >> write_instance E os) c).0 ≢ ok tt)
        × (((check_old E os client >> write_instance E os) c).1.world.os ≡ c.world.os)
  check_old-stale client c old e stale =
      let passed = old_instance-ok E L client (key_of c) old c.world.etcd in
      (ground (arith, passed), ground (arith, passed))

  -- On a lawful cluster, and for a key without the mark of a lock, `Init` of the etcd updater does
  -- not return nil for an Instance whose OldInstance has another yaml than the one stored, or for
  -- which none is stored, and then it has not touched the machine: it writes no file.
  pub init-stale :
      (c : WriterCall S O E.Client) (old : OldInstance)
      → IsStorageKey (key_of c)
      → c.shared.old_instance ≡ some old
      → L.value c.world.etcd (key_of c) ≢ some old.kustomization_yaml
      → ((init E os c).0 ≢ ok tt) × ((init E os c).1.world.os ≡ c.world.os)
  unfolding init
  init-stale c old storage e stale =
      grind (arith, L.new_client_value, get_session_and_mutex-keeps E L (key_of c), check_old-stale)
