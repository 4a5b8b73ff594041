-- ===== src/Etcd/Atomic/Deleted.antt =====
-- `Delete` over the etcd adapter, however it ends.
use hambone.Base.{
  String, Bool, subst, ◌≡◌, refl, ap, ◌∙◌, ◌⊎◌, inl, inr, Option, none, some, List, [], ◌++◌, arith,
  starts_with, if◌then◌else◌, Option-cases,
}
use hambone.Go.{Result, Result-cases, Unit₀, Action, ◌>>◌, check}
use hambone.Pb.{Instance}
use hambone.Sys.{Os}
use hambone.State.Receiver.{World, Receiver, machine}
use hambone.Instances.Statuses.{ItemStatuses}
use hambone.Instances.Requests.{Server, delete, delete_call, withdraw, forget_old, names_equate}
use hambone.Instances.Requests.Delete.{begin}
use hambone.Instances.Requests.Tools.{withdraw-keeps}
use hambone.Etcd.Client.{Etcd}
use hambone.Etcd.Adapter.{get_instance_key}
use hambone.Etcd.Lawful.{IsLawful, IsStorageKey}
use hambone.Etcd.Updater as Updater
use hambone.Etcd.Updater.{WriterCall, put_files, put_instance}
use hambone.Etcd.Deleter as Deleter
use hambone.Etcd.Deleter.{delete_instance}
use hambone.Etcd.Deleter.Laws.{init-preserves}
use hambone.Etcd.Deleter.Registered as Registered
use hambone.Etcd.Deleter.Registered.{init-registered, init-name, obtained-Preserved}
use hambone.Etcd.Engine.{Settings}
use hambone.Etcd.Apply.{release-Gentle}
use hambone.Etcd.Server.{etcd_server}
use hambone.Etcd.Server.Released.{delete-self, released-keeps}
use hambone.Etcd.Atomic.{Writes, Stored, Same, AllOrNothing, after-AllOrNothing, without_prefix}

-- What is stored once a name is deleted.
abbrev pub without : String → Stored → Stored
without name f = without_prefix (get_instance_key name) f

before-AllOrNothing :
    (name : String) (f f' g : Stored)
    → Same f' f
    → AllOrNothing (without name) f' g
    → AllOrNothing (without name) f g
before-AllOrNothing name f f' g same (inl nothing) =
    inl λ j storage. nothing j storage ∙ same j storage
before-AllOrNothing name f f' g same (inr everything) = inr λ j storage.
    everything j storage
    ∙ ap (λ v. if starts_with j (get_instance_key name) then none else v) (same j storage)

module _ {S O : Type 0} (E : Etcd S) (L : IsLawful E) (V : Writes E L) (os : Os O)
    (settings : Settings) (unmarshal : String → Result ItemStatuses)
    (instances_dir templates_dir : String) (enable_kustomize_build enable_kubectl : Bool) where
  abbrev server : Server (World S O (List String))
  server =
      etcd_server E os settings instances_dir templates_dir enable_kustomize_build enable_kubectl

  abbrev value_of : WriterCall S O E.Client → Stored
  value_of c j = L.value c.world.etcd j

  -- A commit without a client panics before it deletes.
  delete_instance-AllOrNothing :
      (client : Option E.Client) (key : String) (s : S)
      → AllOrNothing
          (without_prefix key)
          (L.value s)
          (L.value (delete_instance E os client key s).1)
  delete_instance-AllOrNothing none key s = inl λ j storage. refl
  delete_instance-AllOrNothing (some client) key s = V.delete_ends client key s

  commit-AllOrNothing :
      (c : WriterCall S O E.Client)
      → AllOrNothing (without c.shared.name) (value_of c) (value_of (Deleter.commit E os c).1)
  unfolding Deleter.commit
  commit-AllOrNothing c =
      delete_instance-AllOrNothing c.self.fields.client (get_instance_key c.shared.name)
        c.world.etcd

  abbrev taken : WriterCall S O E.Client → WriterCall S O E.Client
  taken c = (withdraw (machine os) unmarshal server c).1

  -- What follows `Init` in `Delete`.
  abbrev rest : Action (WriterCall S O E.Client) Unit₀
  rest =
      check (withdraw (machine os) unmarshal server) (Deleter.cancel E os)
        (Deleter.commit E os >> forget_old (machine os) unmarshal server)

  rest_self : (c : WriterCall S O E.Client) → (rest c).1.self ≡ c.self
  unfolding Deleter.cancel
  rest_self c = grind (arith, delete-self E os, withdraw-keeps os unmarshal server c)

  rest_etcd :
      (c : WriterCall S O E.Client)
      → ((rest c).1.world.etcd ≡ c.world.etcd)
        ⊎ ((rest c).1.world.etcd ≡ (Deleter.commit E os (taken c)).1.world.etcd)
  unfolding Deleter.cancel
  rest_etcd c =
      let same = withdraw-keeps os unmarshal server c in
      elim (Result-cases (withdraw (machine os) unmarshal server c).0) [
        | inl (a, e) ↦ inr (elim (Result-cases (Deleter.commit E os (taken c)).0) [
          | inl (b, f) ↦ ground arith
          | inr (inl (x, f)) ↦ ground arith
          | inr (inr (x, f)) ↦ ground arith
        ])
        | inr (inl (x, e)) ↦ inl (ground (arith, same))
        | inr (inr (x, e)) ↦ inl (ground (arith, same))
      ]

  abbrev examined : WriterCall S O E.Client → WriterCall S O E.Client
  examined c = (Deleter.init E os c).1

  abbrev released : WriterCall S O E.Client → WriterCall S O E.Client
  released c = (Deleter.run_cleanup_funcs E os c).1

  delete_call-end :
      (c : WriterCall S O E.Client)
      → let d = (delete_call (machine os) unmarshal server c).1 in
        (d ≡ examined c) ⊎ ((d ≡ released (examined c)) ⊎ (d ≡ released (rest (examined c)).1))
  unfolding delete_call
  delete_call-end c = elim (Result-cases (Deleter.init E os c).0) [
    | inl (a, e) ↦ inr (inr (ground arith))
    | inr (inl (x, e)) ↦ inr (inl (ground arith))
    | inr (inr (x, e)) ↦ inl (ground arith)
  ]

  released-Same :
      (c d : WriterCall S O E.Client)
      → c.self.cleanup_funcs ≡ []
      → d.self ≡ (examined c).self
      → Same (value_of (released d)) (value_of d)
  released-Same c d fresh same j storage =
      released-keeps E os (λ s. L.value s j ≡ L.value d.world.etcd j) (Registered.obtained E os c) d
        (ap (λ (r : Receiver S (Updater.WriterFields E.Client)). r.cleanup_funcs) same
          ∙ (init-registered E os c ∙ ap (λ fs. fs ++ Registered.obtained E os c) fresh))
        (obtained-Preserved E os _ (release-Gentle E L os settings j _ storage)
          (get_instance_key c.shared.name) (E.new_client c.world.vars c.world.etcd))
        refl

  taken-AllOrNothing :
      (c : WriterCall S O E.Client)
      → AllOrNothing (without c.shared.name) (value_of c) (value_of (rest (examined c)).1)
  taken-AllOrNothing c =
      let c₁ = examined c in
      let keeps = withdraw-keeps os unmarshal server c₁ in
      let named = ap (λ (i : Instance). i.name) keeps.2 ∙ init-name E os c in
      elim (rest_etcd c₁) [
        | inl e ↦ inl λ j storage. ap (λ s. L.value s j) e ∙ init-preserves E L os c j storage
        | inr e ↦
            let before : Same (value_of (taken c₁)) (value_of c) =
              λ j storage. ap (λ s. L.value s j) keeps.0 ∙ init-preserves E L os c j storage in
            let after : Same (value_of (rest c₁).1) (value_of (Deleter.commit E os (taken c₁)).1) =
              λ j storage. ap (λ s. L.value s j) e in
            after-AllOrNothing (without c.shared.name) (value_of c) _ _ after (
              before-AllOrNothing c.shared.name (value_of c) (value_of (taken c₁)) _ before (
                subst
                  (λ n.
                    AllOrNothing (without n) (value_of (taken c₁))
                      (value_of (Deleter.commit E os (taken c₁)).1))
                  named (commit-AllOrNothing (taken c₁))))
      ]

  delete_call-atomic :
      (c : WriterCall S O E.Client)
      → c.self.cleanup_funcs ≡ []
      → AllOrNothing
          (without c.shared.name)
          (value_of c)
          (value_of (delete_call (machine os) unmarshal server c).1)
  delete_call-atomic c fresh =
      let unchanged =
        λ (j : String) (storage : IsStorageKey j). init-preserves E L os c j storage in
      elim (delete_call-end c) [
        | inl e ↦ inl λ j storage. ap (λ d. value_of d j) e ∙ unchanged j storage
        | inr (inl e) ↦ inl λ j storage.
            ap (λ d. value_of d j) e
            ∙ (released-Same c (examined c) fresh refl j storage ∙ unchanged j storage)
        | inr (inr e) ↦
            after-AllOrNothing (without c.shared.name) _ _ _
              (λ j storage.
                ap (λ d. value_of d j) e
                ∙ released-Same c (rest (examined c)).1 fresh (rest_self (examined c)) j storage)
              (taken-AllOrNothing c)
      ]

  -- On a lawful etcd cluster, where a call that writes has, once it has returned, taken effect or not:
  -- a `Delete`, however it ends, by nil, an error or a panic, has left every key without the mark of a lock as it was, or has deleted those that
  -- begin with the key of the Instance and left the other keys alone.
  pub delete-atomic :
      (instance : Instance) (w : World S O (List String))
      → AllOrNothing
          (without instance.name)
          (L.value w.etcd)
          (L.value (delete (machine os) unmarshal server instance w).2.etcd)
  unfolding delete
  delete-atomic instance w = elim (Option-cases (names_equate instance)) [
    | inl e ↦
        let call = delete_call-atomic (begin (machine os) unmarshal server instance w) refl in
        after-AllOrNothing (without instance.name) _ _ _ (λ j storage. ground arith) call
    | inr (x, e) ↦ inl λ j storage. ground arith
  ]
