-- ===== src/Etcd/Shared/Compared.antt =====
-- What `Init` has established when other clients are at work: the mutex is held, and what the
-- OldInstance was compared with is still what the key holds.
use hambone.Base.{String, true, ◌≡◌, refl, sym, ap, ◌∙◌, Option, none, some, List, [], ◌∷◌, arith}
use hambone.Go.{Result, ok, Unit₀, ◌>>=◌}
use hambone.Go.Rules.{>>=-ok}
use hambone.Pb.{OldInstance}
use hambone.Sys.{Os}
use hambone.Etcd.Client.{Etcd, KeyValue}
use hambone.Etcd.Stored.{compare_old-ok_of_eq}
use hambone.Etcd.Adapter.{
  get_instance_key, get_session_and_mutex, compare_old, old_instance_equals_current_instance_if_set,
}
use hambone.Etcd.Updater as Updater
use hambone.Etcd.Updater.{WriterCall}
use hambone.Etcd.Deleter as Deleter
use hambone.Etcd.Deleter.Laws.{adopt-etcd}
use hambone.Etcd.Shared.{History, latest, lock_name, IsShared}

module _ {S : Type 0} (E : Etcd S) (H : IsShared E) where
  pub session-holds :
      (c : E.Client) (key : String) (s : S) {l : E.Context × E.Session × E.Mutex}
      → (get_session_and_mutex E c key s).0 ≡ ok l
      → H.holds (get_session_and_mutex E c key s).1 (lock_name key) ≡ true
  unfolding get_session_and_mutex
  session-holds c key s h = grind (arith, H.lock_holds)

  compare_old-state :
      (old : OldInstance) (kvs : List KeyValue) (s : S) → (compare_old E old kvs s).1 ≡ s
  compare_old-state old [] s = refl
  compare_old-state old (kv ∷ []) s = refl
  compare_old-state old (kv ∷ more ∷ kvs) s = refl

  module _ (c : E.Client) (key : String) (s : S) (held : H.holds s (lock_name key) ≡ true) where
    -- The comparison gives up no mutex, and the key holds afterwards what it held before.
    pub old_instance-holds :
        (old : Option OldInstance)
        → H.holds (old_instance_equals_current_instance_if_set E c key old s).1 (lock_name key)
          ≡ true
    unfolding old_instance_equals_current_instance_if_set
    old_instance-holds none = held
    old_instance-holds (some old) =
        grind (arith, H.key_exists_holds, H.get_holds, compare_old-state old)

    pub old_instance-history :
        (old : Option OldInstance)
        → H.history (old_instance_equals_current_instance_if_set E c key old s).1 key
          ≡ H.history s key
    unfolding old_instance_equals_current_instance_if_set
    old_instance-history none = refl
    old_instance-history (some old) =
        grind
          (arith, H.key_exists_holds, H.key_exists_history, H.get_history, compare_old-state old)

    get_compare-latest :
        (old : OldInstance)
        → ((E.get c key >>= compare_old E old) s).0 ≡ ok tt
        → latest (H.history s key) ≡ some old.kustomization_yaml
    get_compare-latest old h =
        let (kvs, e, f) = >>=-ok (compare_old E old) (E.get c key) s h in
        compare_old-ok_of_eq E old key kvs (latest (H.history s key)) (E.get c key s).1
          (H.get_latest c key s held e) (ap (λ (p : Result Unit₀ × S). p.0) (sym f) ∙ h)

  -- The comparison lets pass only what the key holds under the mutex.
  pub old_instance-latest :
      (c : E.Client) (key : String) (s : S) (old : OldInstance)
      → H.holds s (lock_name key) ≡ true
      → (old_instance_equals_current_instance_if_set E c key (some old) s).0 ≡ ok tt
      → latest (H.history s key) ≡ some old.kustomization_yaml
  unfolding old_instance_equals_current_instance_if_set
  old_instance-latest c key s old held h =
      let kept = H.key_exists_holds c key key s held in
      let same = H.key_exists_history c key key s held in
      ground (arith, same, get_compare-latest c key (E.key_exists c key s).1 kept old)

-- A history whose latest value is known.
pub latest-some :
    (h : History) (v : String) → latest h ≡ some v → (rest : History) × (h ≡ some v ∷ rest)
latest-some [] v e = cc
latest-some (w ∷ rest) v e = (rest, ap (λ x. x ∷ rest) e)

module _ {S O : Type 0} (E : Etcd S) (H : IsShared E) (os : Os O) where
  abbrev key_of : WriterCall S O E.Client → String
  key_of c = get_instance_key c.shared.name

  -- When `Init` of the updater returns nil, it holds the mutex.
  pub init-holds :
      (c : WriterCall S O E.Client)
      → (Updater.init E os c).0 ≡ ok tt
      → H.holds (Updater.init E os c).1.world.etcd (lock_name (key_of c)) ≡ true
  unfolding Updater.init
  init-holds c h = grind (arith, session-holds E H, old_instance-holds E H)

  pub init-latest :
      (c : WriterCall S O E.Client) (old : OldInstance)
      → c.shared.old_instance ≡ some old
      → (Updater.init E os c).0 ≡ ok tt
      → latest (H.history (Updater.init E os c).1.world.etcd (key_of c))
        ≡ some old.kustomization_yaml
  unfolding Updater.init
  init-latest c old e h =
      grind (arith, session-holds E H, old_instance-latest E H, old_instance-history E H)

  -- The same of the deleter.
  pub delete_init-holds :
      (c : WriterCall S O E.Client)
      → (Deleter.init E os c).0 ≡ ok tt
      → H.holds (Deleter.init E os c).1.world.etcd (lock_name (key_of c)) ≡ true
  unfolding Deleter.init
  delete_init-holds c h =
      grind (arith, session-holds E H, old_instance-holds E H, H.get_holds, adopt-etcd E os)

  pub delete_init-latest :
      (c : WriterCall S O E.Client) (old : OldInstance)
      → c.shared.old_instance ≡ some old
      → (Deleter.init E os c).0 ≡ ok tt
      → latest (H.history (Deleter.init E os c).1.world.etcd (key_of c))
        ≡ some old.kustomization_yaml
  unfolding Deleter.init
  delete_init-latest c old e h = grind (
    arith,
    session-holds E H,
    old_instance-latest E H,
    old_instance-history E H,
    old_instance-holds E H,
    H.get_history,
    adopt-etcd E os,
  )
