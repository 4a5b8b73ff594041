-- ===== src/Etcd/Contract.antt =====
-- The etcd adapter keeps the contracts that the server relies on.
use hambone.Base.{refl}
use hambone.Sys.{Os}
use hambone.State.Receiver.{run_and_forget}
use hambone.State.Contract.{IsUpdater, IsDeleter}
use hambone.Etcd.Client.{Etcd}
use hambone.Etcd.Updater as Updater
use hambone.Etcd.Deleter as Deleter
use hambone.Etcd.Engine.{Settings, engine}

module _ {S O : Type 0} (E : Etcd S) (os : Os O) (settings : Settings) where
  -- The etcd adapter's `Cancel` hands on the error it is given, and its `RunCleanupFuncs` leaves
  -- the Instance alone, in the updater and in the deleter.
  pub engine-IsUpdater : IsUpdater (engine E os settings).updater
  unfolding Updater.cancel Updater.run_cleanup_funcs run_and_forget
  engine-IsUpdater = record { cancel_fails = λ e c. refl; cleanup_shared = λ c. refl }

  pub engine-IsDeleter : IsDeleter (engine E os settings).deleter
  unfolding Deleter.cancel Deleter.run_cleanup_funcs run_and_forget
  engine-IsDeleter = record { cancel_fails = λ e c. refl; cleanup_shared = λ c. refl }
