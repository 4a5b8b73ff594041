-- ===== src/Etcd/Stored.antt =====
-- Taking the lock and comparing with the stored Instance changes nothing that is stored, and lets
-- a request pass only if its OldInstance is what is stored.
use hambone.Base.{String, ◌≡◌, refl, ◌∙◌, sym, ap, Option, none, some, List, [], ◌∷◌, arith}
use hambone.Go.{Result, ok, Unit₀, ◌>>=◌}
use hambone.Go.Rules.{>>=-ok}
use hambone.Pb.{OldInstance}
use hambone.Etcd.Client.{Etcd, KeyValue}
use hambone.Etcd.Adapter.{
  get_session_and_mutex, compare_old, old_instance_equals_current_instance_if_set,
}
use hambone.Etcd.Lawful.{IsLawful, IsStorageKey, entry}

module _ {S : Type 0} (E : Etcd S) (L : IsLawful E) (j : String) where
  -- What is stored under the key `j`.
  abbrev pub stored : S → Option String
  stored s = L.value s j

  pub get_session_and_mutex-keeps :
      (c : E.Client) (key : String) (s : S)
      → IsStorageKey j
      → L.value (get_session_and_mutex E c key s).1 j ≡ L.value s j
  unfolding get_session_and_mutex
  get_session_and_mutex-keeps c key s storage =
      grind (arith, L.with_timeout_value, L.new_session_value, L.lock_value, L.close_session_value)

  compare_old-keeps :
      (old : OldInstance) (kvs : List KeyValue) (s : S)
      → L.value (compare_old E old kvs s).1 j ≡ L.value s j
  compare_old-keeps old [] s = refl
  compare_old-keeps old (kv ∷ []) s = refl
  compare_old-keeps old (kv ∷ more ∷ kvs) s = refl

  pub old_instance-keeps :
      (c : E.Client) (key : String) (old : Option OldInstance) (s : S)
      → L.value (old_instance_equals_current_instance_if_set E c key old s).1 j ≡ L.value s j
  unfolding old_instance_equals_current_instance_if_set
  old_instance-keeps c key none s = refl
  old_instance-keeps c key (some old) s =
      grind (arith, L.key_exists_value, L.get_value, compare_old-keeps old)

module _ {S : Type 0} (E : Etcd S) where
  compare_old-ok :
      (old : OldInstance) (key : String) (v : Option String) (s : S)
      → (compare_old E old (entry key v) s).0 ≡ ok tt
      → v ≡ some old.kustomization_yaml
  compare_old-ok old key none s h = cc
  compare_old-ok old key (some v) s h = ground arith

  pub compare_old-ok_of_eq :
      (old : OldInstance) (key : String) (kvs : List KeyValue) (v : Option String) (s : S)
      → kvs ≡ entry key v
      → (compare_old E old kvs s).0 ≡ ok tt
      → v ≡ some old.kustomization_yaml
  compare_old-ok_of_eq old key kvs v s e h = compare_old-ok old key v s (rw (← e) h)

module _ {S : Type 0} (E : Etcd S) (L : IsLawful E) where
  get_then-ok :
      (c : E.Client) (key : String) (old : OldInstance) (s : S)
      → ((E.get c key >>= compare_old E old) s).0 ≡ ok tt
      → L.value s key ≡ some old.kustomization_yaml
  get_then-ok c key old s h =
      let (kvs, e, f) = >>=-ok (compare_old E old) (E.get c key) s h in
      compare_old-ok_of_eq E old key kvs (L.value s key) (E.get c key s).1 (L.get_ok c key s e)
        (ap (λ (p : Result Unit₀ × S). p.0) (sym f) ∙ h)

  -- On a lawful cluster `oldInstanceEqualsCurrentInstanceIfSet` returns nil for an OldInstance only
  -- if the key holds the yaml that the OldInstance carries.
  pub old_instance-ok :
      (c : E.Client) (key : String) (old : OldInstance) (s : S)
      → (old_instance_equals_current_instance_if_set E c key (some old) s).0 ≡ ok tt
      → L.value s key ≡ some old.kustomization_yaml
  unfolding old_instance_equals_current_instance_if_set
  old_instance-ok c key old s h =
      ground (arith, L.key_exists_value c key key s, get_then-ok c key old (E.key_exists c key s).1)
