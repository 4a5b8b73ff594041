-- ===== src/Etcd/Deleter/Registered.antt =====
-- What `Init` of the etcd deleter registers to be cleaned up.
use hambone.Base.{String, Bool, true, false, ◌≡◌, refl, List, [], ◌∷◌, ◌++◌, All, arith}
use hambone.Go.{Result, ok, err, panicked, Action, Unit₀}
use hambone.Sys.{Os}
use hambone.State.Cleanup.{Cleanup}
use hambone.State.Cleanup.Preserve.{Preserves}
use hambone.Etcd.Client.{Etcd, KeyValue}
use hambone.Etcd.Adapter.{get_instance_key, get_session_and_mutex}
use hambone.Etcd.Gentle.{IsGentle}
use hambone.Etcd.Updater.{WriterCall}
use hambone.Etcd.Deleter.{init, adopt}
use mathlib.Core.List.{append_assoc, append-nil}

module _ {S O : Type 0} (E : Etcd S) (os : Os O) where
  abbrev named : String → Action S Unit₀ → Cleanup S
  named name f = record { name = name; call = f }

  -- The lock's three, in the order in which they are registered.
  abbrev pub lock_cleanups : Result (E.Context × E.Session × E.Mutex) → List (Cleanup S)
  lock_cleanups (ok (context, session, mutex)) =
      named "(*etcdDeleter).Init.func2" (E.cancel context)
      ∷ named "(*etcdDeleter).Init.func3" (E.close_session session)
      ∷ named "(*etcdDeleter).Init.func4" (E.unlock mutex)
      ∷ []
  lock_cleanups _ = []

  -- The lock is asked for only if the Instance is there.
  abbrev pub if_present : E.Client → String → Result Bool × S → List (Cleanup S)
  if_present client key (ok true, s) = lock_cleanups (get_session_and_mutex E client key s).0
  if_present client key (_, s) = []

  abbrev pub client_cleanups : String → Result E.Client × S → List (Cleanup S)
  client_cleanups key (ok client, s) =
      named "(*etcdDeleter).Init.func1" (E.close_client client)
      ∷ if_present client key (E.key_exists client key s)
  client_cleanups key (_, s) = []

  -- What an `Init` from the given state obtains.
  abbrev pub obtained : WriterCall S O E.Client → List (Cleanup S)
  obtained c =
      client_cleanups (get_instance_key c.shared.name) (E.new_client c.world.vars c.world.etcd)

  snoc4 :
      (fs : List (Cleanup S)) (a b c d : Cleanup S)
      → (((fs ++ (a ∷ [])) ++ (b ∷ [])) ++ (c ∷ [])) ++ (d ∷ []) ≡ fs ++ (a ∷ b ∷ c ∷ d ∷ [])
  snoc4 fs a b c d = simp append_assoc

  adopt-registered :
      (kvs : List KeyValue) (c : WriterCall S O E.Client)
      → ((adopt E os kvs c).1.self ≡ c.self) × ((adopt E os kvs c).1.shared.name ≡ c.shared.name)
  adopt-registered [] c = (refl, refl)
  adopt-registered (kv ∷ []) c = (refl, refl)
  adopt-registered (kv ∷ more ∷ kvs) c = (refl, refl)

  -- However `Init` ends, exactly what it obtained is registered, in the order of obtaining.
  pub init-registered :
      (c : WriterCall S O E.Client)
      → (init E os c).1.self.cleanup_funcs ≡ c.self.cleanup_funcs ++ obtained c
  unfolding init
  init-registered c = grind (arith, snoc4, append-nil, adopt-registered)

  pub init-name : (c : WriterCall S O E.Client) → (init E os c).1.shared.name ≡ c.shared.name
  unfolding init
  init-name c = grind (arith, adopt-registered)

module _ {S O : Type 0} (E : Etcd S) (os : Os O) (P : S → Type 0) (G : IsGentle E P) where
  lock-Preserves :
      (x : Result (E.Context × E.Session × E.Mutex)) → All (Preserves P) (lock_cleanups E os x)
  lock-Preserves (ok (context, session, mutex)) =
      (G.cancel_gentle context, (G.close_session_gentle session, (G.unlock_gentle mutex, tt)))
  lock-Preserves (err x) = tt
  lock-Preserves (panicked x) = tt

  if_present-Preserves :
      (client : E.Client) (key : String) (r : Result Bool × S)
      → All (Preserves P) (if_present E os client key r)
  if_present-Preserves client key (ok true, s) =
      lock-Preserves (get_session_and_mutex E client key s).0
  if_present-Preserves client key (ok false, s) = tt
  if_present-Preserves client key (err x, s) = tt
  if_present-Preserves client key (panicked x, s) = tt

  pub obtained-Preserved :
      (key : String) (r : Result E.Client × S) → All (Preserves P) (client_cleanups E os key r)
  obtained-Preserved key (ok client, t) =
      (G.close_client_gentle client, if_present-Preserves client key (E.key_exists client key t))
  obtained-Preserved key (err x, t) = tt
  obtained-Preserved key (panicked x, t) = tt
