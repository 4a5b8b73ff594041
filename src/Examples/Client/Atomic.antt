-- ===== src/Examples/Client/Atomic.antt =====
-- The two actions of the client that carry an OldInstance.
use hambone.Base.{
  inl, inr, String, Bool, false, ◌≡◌, ◌≢◌, refl, sym, ap, subst, ◌∙◌, none, some, List,
}
use hambone.Go.{Result, ok, Result-cases}
use hambone.Etcd.Reliable.{is_ok}
use hambone.Pb.{Instance}
use hambone.Sys.{Os}
use hambone.State.Receiver.{World, machine}
use hambone.Instances.Statuses.{ItemStatuses}
use hambone.Instances.Requests.{Server}
use hambone.Instances.Requests.Apply.{apply-ok, start}
use hambone.Etcd.Client.{Etcd}
use hambone.Etcd.Adapter.{get_instance_key}
use hambone.Etcd.Lawful.{IsLawful, IsStorageKey}
use hambone.Etcd.Engine.{Settings}
use hambone.Etcd.Server.{etcd_server}
use hambone.Etcd.Contract.{engine-IsUpdater}
use hambone.Etcd.Apply.{apply-stored}
use hambone.Etcd.Updater.Init.{init-stale}
use hambone.Etcd.Updater.Commit.{with_instance_self}
use hambone.Etcd.Shared.{IsShared}
use hambone.Etcd.Shared.Swaps.{Swapped, delete-swaps}
use hambone.Examples.Api.{Api, new_instance, old_instance, connected}
use hambone.Examples.Connected.{connected-apply, connected-delete}
use hambone.Examples.Client.{
  generate_kustomization_yaml, before_name, before_dns_name, behind_dns_name, applied_instance,
  apply_instance, update_instance, atomic_delete_instance,
}
use text.Mathlib.TextLemmas.{append_cancel_left, append_cancel_right}

generate-injective :
    (name a b : String)
    → generate_kustomization_yaml name a ≡ generate_kustomization_yaml name b
    → a ≡ b
unfolding generate_kustomization_yaml
generate-injective name a b h = append_cancel_right a b behind_dns_name (
    append_cancel_left before_dns_name _ _
      (append_cancel_left name _ _ (append_cancel_left before_name _ _ h)))

some-injective : (a b : String) → some a ≡ some b → a ≡ b
some-injective a b h = cc

module _ {S O : Type 0} (E : Etcd S) (os : Os O) (settings : Settings)
    (unmarshal : String → Result ItemStatuses) (instances_dir templates_dir : String)
    (enable_kustomize_build enable_kubectl : Bool) where
  abbrev server : Server (World S O (List String))
  server =
      etcd_server E os settings instances_dir templates_dir enable_kustomize_build enable_kubectl

  abbrev client : Api (World S O (List String))
  client = connected (machine os) unmarshal server

  no_update :
      (L : IsLawful E) (name : String) (w : World S O (List String)) {a : Instance}
      → IsStorageKey (get_instance_key name)
      → name ≢ "other-name"
      → (apply_instance client name w).0 ≡ ok a
      → (b : Instance) → (update_instance client name (apply_instance client name w).1).0 ≢ ok b
  unfolding apply_instance update_instance
  no_update L name w storage other done b again =
      let first = applied_instance name in
      let old = old_instance name (generate_kustomization_yaml name "other-name") in
      let second = new_instance name (generate_kustomization_yaml name name) (some old) in
      let (applied, at) = connected-apply (machine os) unmarshal server first w done in
      let w' = (client.apply first w).1 in
      let (accepted, _) = connected-apply (machine os) unmarshal server second w' again in
      let key = get_instance_key name in
      let held =
        ap (λ (p : Result Instance × World S O (List String)). L.value p.1.etcd key) at
        ∙ (apply-stored E L os settings unmarshal instances_dir templates_dir enable_kustomize_build
              enable_kubectl first w key storage applied
            ∙ with_instance_self first _) in
      let (_, through, _, _) =
        apply-ok (machine os) unmarshal server (engine-IsUpdater E os settings) false second w'
          accepted in
      let c = start (machine os) unmarshal server second w' in
      (init-stale E L os c old storage refl (λ e.
          other (generate-injective name name "other-name" (some-injective _ _ (sym held ∙ e))))).0
        through.init_ok

  -- Over a lawful etcd cluster, and for a name whose key has no mark of a lock: right after an
  -- `applyInstance` that returned nil, `updateInstance` does not return nil, unless the name is
  -- "other-name": it asks for another yaml than the one that `applyInstance` has stored.
  pub update-refused :
      (L : IsLawful E) (name : String) (w : World S O (List String)) {a : Instance}
      → IsStorageKey (get_instance_key name)
      → name ≢ "other-name"
      → (apply_instance client name w).0 ≡ ok a
      → is_ok (update_instance client name (apply_instance client name w).1).0 ≡ false
  update-refused L name w storage other done =
      let again = update_instance client name (apply_instance client name w).1 in
      elim (Result-cases again.0) [
        | inl (b, e) ↦ absurd (no_update L name w storage other done b e)
        | inr (inl (x, e)) ↦ ap is_ok e
        | inr (inr (x, e)) ↦ ap is_ok e
      ]

  -- Over an etcd cluster that others write to: an `atomicDeleteInstance` that returned nil has
  -- deleted exactly the yaml that is generated for the name, with nobody's write between the
  -- comparison and the deletion.
  atomic_delete-swaps :
      (H : IsShared E) (name : String) (w : World S O (List String)) {a : Instance}
      → (atomic_delete_instance client name w).0 ≡ ok a
      → Swapped E H os
          (get_instance_key name)
          (some (generate_kustomization_yaml name name))
          none
          (atomic_delete_instance client name w).1.etcd
  unfolding atomic_delete_instance
  atomic_delete-swaps H name w done =
      let old = old_instance name (generate_kustomization_yaml name name) in
      let instance = new_instance name "" (some old) in
      let (deleted, at) = connected-delete (machine os) unmarshal server instance w done in
      subst
        (λ (p : Result Instance × World S O (List String)).
          Swapped E H os (get_instance_key name) (some old.kustomization_yaml) none p.1.etcd)
        (sym at)
        (delete-swaps E H os settings unmarshal instances_dir templates_dir enable_kustomize_build
          enable_kubectl instance old w refl deleted)
