-- ===== src/State/Contract.antt =====
-- What the server relies on of the updater and the deleter of a state store.
use hambone.Base.{◌≡◌}
use hambone.Go.{Error, err}
use hambone.Pb.{Instance}
use hambone.State.{Updater, Deleter}
use hambone.State.Method.{Call}

-- `Cancel` hands the error on, and cleaning up leaves the Instance alone.
pub record IsUpdater {W R : Type 0} (u : Updater W R) : Type 0 where
  pub cancel_fails : (e : Error) (c : Call W Instance R) → (u.cancel e c).0 ≡ err e
  pub cleanup_shared : (c : Call W Instance R) → (u.run_cleanup_funcs c).1.shared ≡ c.shared

pub record IsDeleter {W R : Type 0} (d : Deleter W R) : Type 0 where
  pub cancel_fails : (e : Error) (c : Call W Instance R) → (d.cancel e c).0 ≡ err e
  pub cleanup_shared : (c : Call W Instance R) → (d.run_cleanup_funcs c).1.shared ≡ c.shared
