-- ===== src/Etcd/Updater/Cleanup.antt =====
-- What `Init` of the etcd updater leaves to be cleaned up, and what cleaning up does. A context that
-- `GetSessionAndMutex` has made when it fails later is not among it.
use hambone.Base.{sym, String, ◌≡◌, ◌≢◌, refl, ◌∙◌, ap, List, [], ◌∷◌, ◌++◌, reverse, arith, All}
use hambone.Go.{Result, ok, err, panicked, plain}
use hambone.Sys.{Os}
use hambone.State.Cleanup.{Cleanup, run_cleanup_funcs}
use hambone.State.Cleanup.Order.{
  run_all, NeverPanics, run_cleanup_funcs_lifo, run_cleanup_funcs-quiet,
}
use hambone.Etcd.Client.{Etcd}
use hambone.Etcd.Gentle.{IsGentle}
use hambone.State.Cleanup.Preserve.{Preserves}
use hambone.Etcd.Adapter.{get_instance_key, get_session_and_mutex}
use hambone.Etcd.Updater as Updater
use hambone.Etcd.Updater.{WriterCall, init}
use mathlib.Core.List.{append_assoc, append-nil}

module _ {S O : Type 0} (E : Etcd S) (os : Os O) where
  abbrev pub close_client_cleanup : E.Client → Cleanup S
  close_client_cleanup client = record {
    name = "(*etcdUpdater).Init.func1";
    call = E.close_client client;
  }

  -- The lock's three, in the order in which they are registered.
  abbrev pub lock_cleanups : Result (E.Context × E.Session × E.Mutex) → List (Cleanup S)
  lock_cleanups (ok (context, session, mutex)) =
      record { name = "(*etcdUpdater).Init.func2"; call = E.cancel context }
      ∷ record { name = "(*etcdUpdater).Init.func3"; call = E.close_session session }
      ∷ record { name = "(*etcdUpdater).Init.func4"; call = E.unlock mutex }
      ∷ []
  lock_cleanups _ = []

  abbrev pub client_cleanups : String → Result E.Client × S → List (Cleanup S)
  client_cleanups key (ok client, s) =
      close_client_cleanup client ∷ lock_cleanups (get_session_and_mutex E client key s).0
  client_cleanups key (_, s) = []

  -- What an `Init` from the given state has obtained and kept: the client, and all three of the lock
  -- or none of them.
  abbrev pub obtained : WriterCall S O E.Client → List (Cleanup S)
  obtained c =
      client_cleanups (get_instance_key c.shared.name) (E.new_client c.world.vars c.world.etcd)

  snoc4 :
      (fs : List (Cleanup S)) (a b c d : Cleanup S)
      → (((fs ++ (a ∷ [])) ++ (b ∷ [])) ++ (c ∷ [])) ++ (d ∷ []) ≡ fs ++ (a ∷ b ∷ c ∷ d ∷ [])
  snoc4 fs a b c d = simp append_assoc

  -- However `Init` ends, exactly what it has kept is registered, in the order of obtaining.
  pub init-registers :
      (c : WriterCall S O E.Client)
      → (init E os c).1.self.cleanup_funcs ≡ c.self.cleanup_funcs ++ obtained c
  unfolding init
  init-registers c = grind (arith, snoc4, append-nil)

module _ {S O : Type 0} (E : Etcd S) (os : Os O) (P : S → Type 0) (G : IsGentle E P) where
  pub obtained-Preserves :
      (key : String) (r : Result E.Client × S) → All (Preserves P) (client_cleanups E os key r)
  obtained-Preserves key (ok client, t) = go (get_session_and_mutex E client key t).0
    where
      go :
          (x : Result (E.Context × E.Session × E.Mutex))
          → All (Preserves P) (close_client_cleanup E os client ∷ lock_cleanups E os x)
      go (ok (context, session, mutex)) = (
        G.close_client_gentle client,
        (G.cancel_gentle context, (G.close_session_gentle session, (G.unlock_gentle mutex, tt))),
      )
      go (err x) = (G.close_client_gentle client, tt)
      go (panicked x) = (G.close_client_gentle client, tt)
  obtained-Preserves key (err x, t) = tt
  obtained-Preserves key (panicked x, t) = tt

-- The calls that give something back fail, if at all, by an error.
pub record IsQuiet {S : Type 0} (E : Etcd S) : Type 0 where
  pub close_client_quiet : (c : E.Client) (s : S) (p : String) → (E.close_client c s).0 ≢ panicked p
  pub cancel_quiet : (x : E.Context) (s : S) (p : String) → (E.cancel x s).0 ≢ panicked p
  pub close_session_quiet :
      (x : E.Session) (s : S) (p : String) → (E.close_session x s).0 ≢ panicked p
  pub unlock_quiet : (m : E.Mutex) (s : S) (p : String) → (E.unlock m s).0 ≢ panicked p

module _ {S O : Type 0} (E : Etcd S) (Q : IsQuiet E) (os : Os O) where
  -- What `Init` has kept is given back: the mutex first, then its session, the context and, last,
  -- the client.
  abbrev pub release_lock : Result (E.Context × E.Session × E.Mutex) → S → S
  release_lock (ok (context, session, mutex)) s =
      (E.cancel context (E.close_session session (E.unlock mutex s).1).1).1
  release_lock _ s = s

  abbrev pub release : String → Result E.Client × S → S → S
  release key (ok client, t) s =
      (E.close_client client (release_lock (get_session_and_mutex E client key t).0 s)).1
  release key (_, t) s = s

  obtained-quiet :
      (key : String) (r : Result E.Client) (t : S)
      → All NeverPanics (client_cleanups E os key (r, t))
  obtained-quiet key (ok client) t = go (get_session_and_mutex E client key t).0
    where
      go :
          (x : Result (E.Context × E.Session × E.Mutex))
          → All NeverPanics (close_client_cleanup E os client ∷ lock_cleanups E os x)
      go (ok (context, session, mutex)) = (
        Q.close_client_quiet client,
        (Q.cancel_quiet context, (Q.close_session_quiet session, (Q.unlock_quiet mutex, tt))),
      )
      go (err e) = (Q.close_client_quiet client, tt)
      go (panicked p) = (Q.close_client_quiet client, tt)
  obtained-quiet key (err e) t = tt
  obtained-quiet key (panicked p) t = tt

  run_all-release :
      (key : String) (r : Result E.Client) (t s : S)
      → run_all (reverse (client_cleanups E os key (r, t))) s ≡ release key (r, t) s
  run_all-release key (ok client) t s = go (get_session_and_mutex E client key t).0
    where
      go :
          (x : Result (E.Context × E.Session × E.Mutex))
          → run_all (reverse (close_client_cleanup E os client ∷ lock_cleanups E os x)) s
            ≡ (E.close_client client (release_lock x s)).1
      go (ok (context, session, mutex)) = refl
      go (err e) = refl
      go (panicked p) = refl
  run_all-release key (err e) t s = refl
  run_all-release key (panicked p) t s = refl

  -- If the calls that give something back do not panic: however `Init` ended, for an updater with
  -- nothing registered before, `RunCleanupFuncs` closes the client, if `clientv3.New` gave one, and
  -- before it, if `GetSessionAndMutex` returned nil, unlocks the mutex, closes the session and
  -- cancels the context, in this order. It does nothing else, and leaves nothing registered. So it
  -- does not cancel the context of a `GetSessionAndMutex` that made one and then failed.
  pub init-cleanup :
      (c : WriterCall S O E.Client)
      → c.self.cleanup_funcs ≡ []
      → let d = (init E os c).1 in
        let done = (Updater.run_cleanup_funcs E os d).1 in
        (done.world.etcd
          ≡ release
              (get_instance_key c.shared.name)
              (E.new_client c.world.vars c.world.etcd)
              d.world.etcd)
        × (done.self.cleanup_funcs ≡ [])
  unfolding Updater.run_cleanup_funcs
  init-cleanup c fresh =
      let registered : (init E os c).1.self.cleanup_funcs ≡ obtained E os c =
        init-registers E os c ∙ ap (λ fs. fs ++ obtained E os c) fresh in
      let key = get_instance_key c.shared.name in
      let (r, t) = E.new_client c.world.vars c.world.etcd in
      let s = (init E os c).1.world.etcd in
      (
        ap (λ fs. (run_cleanup_funcs plain fs s).1) registered
            ∙ ((run_cleanup_funcs_lifo plain (client_cleanups E os key (r, t)) s
                  (obtained-quiet key r t)).0
                ∙ run_all-release key r t s),
        refl,
      )

  -- What `Init` has left to an updater is cleaned up without a panic.
  pub cleanup-quiet :
      (c d : WriterCall S O E.Client)
      → c.self.cleanup_funcs ≡ []
      → d.self.cleanup_funcs ≡ (init E os c).1.self.cleanup_funcs
      → (p : String) → (Updater.run_cleanup_funcs E os d).0 ≢ panicked p
  unfolding Updater.run_cleanup_funcs
  cleanup-quiet c d fresh same p panics =
      let registered : d.self.cleanup_funcs ≡ obtained E os c =
        same ∙ (init-registers E os c ∙ ap (λ fs. fs ++ obtained E os c) fresh) in
      let (r, t) = E.new_client c.world.vars c.world.etcd in
      run_cleanup_funcs-quiet plain (obtained E os c) d.world.etcd
        (obtained-quiet (get_instance_key c.shared.name) r t) p
        (ap (λ fs. (run_cleanup_funcs plain fs d.world.etcd).0) (sym registered) ∙ panics)
