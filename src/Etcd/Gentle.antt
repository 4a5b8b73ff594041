-- ===== src/Etcd/Gentle.antt =====
-- What the calls that give something back do not change.
use hambone.Etcd.Client.{Etcd}

-- The calls behind the cleanup functions keep `P`.
pub record IsGentle {S : Type 0} (E : Etcd S) (P : S → Type 0) : Type 0 where
  pub close_client_gentle : (c : E.Client) (s : S) → P s → P (E.close_client c s).1
  pub cancel_gentle : (x : E.Context) (s : S) → P s → P (E.cancel x s).1
  pub close_session_gentle : (x : E.Session) (s : S) → P s → P (E.close_session x s).1
  pub unlock_gentle : (m : E.Mutex) (s : S) → P s → P (E.unlock m s).1
