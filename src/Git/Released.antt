-- ===== src/Git/Released.antt =====
-- What `Init` over the git adapter takes of the cluster, and what cleaning up gives back.
use hambone.Base.{
  String, Option, none, some, ◌≡◌, refl, ◌∙◌, ap, List, [], ◌∷◌, ◌++◌, reverse, arith, All, ◌==◌,
  if◌then◌else◌,
}
use hambone.Go.{Result, ok, err, panicked, Unit₀, Action}
use hambone.Pb.{Instance}
use hambone.Sys.{Os}
use hambone.State.Receiver.{run_and_forget}
use hambone.State.Cleanup.{Cleanup}
use hambone.State.Cleanup.Order.{run_all, NeverPanics, run_cleanup_funcs_lifo}
use hambone.Etcd.Client.{Etcd}
use hambone.Etcd.Adapter.{get_session_and_mutex}
use hambone.Etcd.Updater.Cleanup.{IsQuiet}
use hambone.Git.Getter.{Vars}
use hambone.Git.Updater as Updater
use hambone.Git.Updater.{WriterFields, WriterCall, prepare, lock_if_wanted}
use hambone.Git.Deleter as Deleter
use hambone.Git.Deleter.{examine}
use hambone.Git.Cleanup.{cleanup_error, run_cleanup_funcs}
use hambone.Git.Bare.{behind}
use mathlib.Core.List.{append_assoc, append-nil}

module _ {S : Type 0} (E : Etcd S) where
  abbrev pub Lock : Type 0
  Lock = Option (E.Context × E.Session × E.Mutex)

  abbrev gained : Result (E.Context × E.Session × E.Mutex) → Lock
  gained (ok lock) = some lock
  gained (err e) = none
  gained (panicked p) = none

  abbrev gained_by : String → Result E.Client × S → Lock
  gained_by key (ok client, s) = gained (get_session_and_mutex E client key s).0
  gained_by key (err e, s) = none
  gained_by key (panicked p, s) = none

  -- What an `Init` from the given state has got hold of, if a lock is wanted.
  abbrev pub lock_of : Vars → S → Lock
  lock_of vars s =
      if vars.etcd_locks_git_key == ""
      then none
      else gained_by vars.etcd_locks_git_key (E.new_client vars.endpoints s)

  -- The mutex goes first, then its session and the context.
  abbrev pub give_back : Lock → S → S
  give_back none s = s
  give_back (some (context, session, mutex)) s =
      (E.cancel context (E.close_session session (E.unlock mutex s).1).1).1

  -- The cleanups of a lock, under their names in the source.
  abbrev cleanups : String → String → String → Lock → List (Cleanup S)
  cleanups a b d none = []
  cleanups a b d (some (context, session, mutex)) =
      record { name = a; call = E.cancel context }
      ∷ record { name = b; call = E.close_session session }
      ∷ record { name = d; call = E.unlock mutex }
      ∷ []

  snoc3 :
      (fs : List (Cleanup S)) (a b c : Cleanup S)
      → ((fs ++ (a ∷ [])) ++ (b ∷ [])) ++ (c ∷ []) ≡ fs ++ (a ∷ b ∷ c ∷ [])
  snoc3 fs a b c = simp append_assoc

  module _ {O : Type 0} (a b d : String) (c : WriterCall S O) where
    lock_if_wanted-registers :
        (lock_if_wanted E a b d c).1.self.cleanup_funcs
        ≡ c.self.cleanup_funcs ++ cleanups a b d (lock_of c.world.vars c.world.etcd)
    unfolding lock_if_wanted
    lock_if_wanted-registers = grind (arith, snoc3, append-nil)

    -- What is done behind it on the machine registers nothing.
    behind-registers :
        (step : WriterFields → Instance → Action O Unit₀)
        → (behind (lock_if_wanted E a b d) step c).1.self.cleanup_funcs
          ≡ c.self.cleanup_funcs ++ cleanups a b d (lock_of c.world.vars c.world.etcd)
    behind-registers step = ground (arith, lock_if_wanted-registers)

  cleanups-quiet :
      (Q : IsQuiet E) (a b d : String) (lock : Lock) → All NeverPanics (cleanups a b d lock)
  cleanups-quiet Q a b d none = tt
  cleanups-quiet Q a b d (some (context, session, mutex)) =
      (Q.cancel_quiet context, (Q.close_session_quiet session, (Q.unlock_quiet mutex, tt)))

  cleanups-give_back :
      (a b d : String) (lock : Lock) (s : S)
      → run_all (reverse (cleanups a b d lock)) s ≡ give_back lock s
  cleanups-give_back a b d none s = refl
  cleanups-give_back a b d (some (context, session, mutex)) s = refl

  -- `RunCleanupFuncs` gives a lock back, and leaves nothing registered.
  abbrev pub Releases : {O : Type 0} → Lock → WriterCall S O → Type 0
  Releases lock d =
      let done = (Updater.run_cleanup_funcs d).1 in
      (done.world.etcd ≡ give_back lock d.world.etcd) × (done.self.cleanup_funcs ≡ [])

  registered-Releases :
      {O : Type 0} (Q : IsQuiet E) (a b d : String) (lock : Lock) (c : WriterCall S O)
      → c.self.cleanup_funcs ≡ cleanups a b d lock
      → Releases lock c
  unfolding run_and_forget
  registered-Releases Q a b d lock c registered = (
    ap (λ fs. (run_cleanup_funcs fs c.world.etcd).1) registered
        ∙ ((run_cleanup_funcs_lifo cleanup_error (cleanups a b d lock) c.world.etcd
              (cleanups-quiet Q a b d lock)).0
            ∙ cleanups-give_back a b d lock c.world.etcd),
    refl,
  )

  behind-Releases :
      {O : Type 0} (Q : IsQuiet E) (a b d : String) (c : WriterCall S O)
      (step : WriterFields → Instance → Action O Unit₀)
      → c.self.cleanup_funcs ≡ []
      → Releases (lock_of c.world.vars c.world.etcd) (behind (lock_if_wanted E a b d) step c).1
  behind-Releases Q a b d c step fresh =
      let lock = lock_of c.world.vars c.world.etcd in
      registered-Releases Q a b d lock (behind (lock_if_wanted E a b d) step c).1
        (behind-registers a b d c step ∙ ap (λ fs. fs ++ cleanups a b d lock) fresh)

  -- If the calls that give something back do not panic: however `Init` of the git updater or of the
  -- git deleter ended, for a receiver with nothing registered before, `RunCleanupFuncs` gives back
  -- the mutex, the session and the context of the lock, in this order, if `Init` obtained one, and
  -- nothing else, and leaves nothing registered. The client that the lock was taken with is not
  -- among them.
  pub init-Releases :
      {O : Type 0} (os : Os O) (Q : IsQuiet E) (c : WriterCall S O)
      → c.self.cleanup_funcs ≡ []
      → let lock = lock_of c.world.vars c.world.etcd in
        Releases lock (Updater.init E os c).1 × Releases lock (Deleter.init E os c).1
  unfolding Updater.init Deleter.init
  init-Releases os Q c fresh = (
    behind-Releases Q "(*gitUpdater).Init.func1" "(*gitUpdater).Init.func2"
        "(*gitUpdater).Init.func3" c (prepare os) fresh,
    behind-Releases Q "(*gitDeleter).Init.func1" "(*gitDeleter).Init.func2"
        "(*gitDeleter).Init.func3" c (examine os) fresh,
  )
