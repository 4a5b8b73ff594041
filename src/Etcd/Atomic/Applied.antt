-- ===== src/Etcd/Atomic/Applied.antt =====
-- `Apply` over the etcd adapter, however it ends.
use hambone.Base.{
  String, Bool, Option, none, some, subst, sym, false, ◌≡◌, refl, ap, ◌∙◌, ◌⊎◌, inl, inr, List, [],
  ◌∷◌, ◌++◌, arith, Option-cases,
}
use hambone.Go.{Result, ok, Result-cases, Unit₀, Action, ◌>>◌, check}
use hambone.Pb.{Instance, File}
use hambone.Sys.{Os}
use hambone.State.Receiver.{World, Receiver, machine}
use hambone.Instances.Statuses.{ItemStatuses}
use hambone.Instances.Requests.{Server, apply, apply_call, validate, after_commit, names_equate}
use hambone.Instances.Requests.Apply.{start}
use hambone.Instances.Requests.Tools.{validate-keeps, refresh-keeps}
use hambone.Etcd.Client.{Etcd}
use hambone.Etcd.Adapter.{get_instance_key, get_file_key}
use hambone.Etcd.Lawful.{IsLawful, IsStorageKey}
use hambone.Etcd.Updater as Updater
use hambone.Etcd.Updater.{WriterCall, put_files, put_instance}
use hambone.Etcd.Updater.Init.{init-keeps}
use hambone.Etcd.Updater.Commit.{with_instance}
use hambone.Etcd.Updater.Cleanup.{init-registers, obtained, obtained-Preserves}
use hambone.Etcd.Engine.{Settings}
use hambone.Etcd.Apply.{release-Gentle, apply-stored}
use hambone.Etcd.Server.{etcd_server}
use hambone.Etcd.Server.Released.{init-shared, update-self, cleaned-keeps}
use hambone.Etcd.Atomic.{
  Writes, Stored, Same, SomePut, Partly, put_at, Same-SomePut, SomePut-before, Partly-after,
  Partly-before,
}

-- What is stored once all that an Instance carries is.
abbrev pub with_all : Instance → Stored → Stored
with_all instance f j = with_instance instance j (f j)

module _ {S O : Type 0} (E : Etcd S) (L : IsLawful E) (V : Writes E L) (os : Os O)
    (settings : Settings) (unmarshal : String → Result ItemStatuses)
    (instances_dir templates_dir : String) (enable_kustomize_build enable_kubectl : Bool) where
  abbrev server : Server (World S O (List String))
  server =
      etcd_server E os settings instances_dir templates_dir enable_kustomize_build enable_kubectl

  abbrev value_of : WriterCall S O E.Client → Stored
  value_of c j = L.value c.world.etcd j

  -- The files are put in their order, and the first Put that fails is the last one.
  put_files-SomePut :
      (client : E.Client) (key : String) (files : List File) (s : S)
      → SomePut key files (L.value s) (L.value (put_files E os client key files s).1)
  unfolding put_files
  put_files-SomePut client key [] s = λ j storage. refl
  put_files-SomePut client key (file ∷ files) s =
      let k = get_file_key key file.name in
      let put = E.put client k file.contents s in
      elim (Result-cases put.0) [
        | inl (a, e) ↦
            let rest = put_files-SomePut client key files put.1 in
            let last : (put_files E os client key (file ∷ files) s).1
                ≡ (put_files E os client key files put.1).1 =
              ground arith in
            inr (
              subst (λ t. SomePut key files (put_at k file.contents (L.value s)) (L.value t))
                (sym last)
                (SomePut-before key files _ (L.value put.1) _
                  (λ j storage. L.put_ok client k file.contents j s e) rest))
        | inr failed ↦
            let last : (put_files E os client key (file ∷ files) s).1 ≡ put.1 = elim failed [
              | inl x ↦ ground arith
              | inr x ↦ ground arith
            ] in
            subst (λ t. SomePut key (file ∷ files) (L.value s) (L.value t)) (sym last)
              (elim (V.put_ends client k file.contents s) [
                | inl nothing ↦ inl nothing
                | inr done ↦ inr (Same-SomePut key files _ _ done)
              ])
      ]

  put_instance-Partly :
      (client : Option E.Client) (instance : Instance) (s : S)
      → let key = get_instance_key instance.name in
        let r = put_instance E os client key instance.kustomization_yaml instance.files s in
        Partly instance (L.value s) (L.value r.1)
  put_instance-Partly none instance s = inl λ j storage. refl
  put_instance-Partly (some client) instance s =
      let key = get_instance_key instance.name in
      let yaml = instance.kustomization_yaml in
      let put = E.put client key yaml s in
      let whole = put_instance E os (some client) key yaml instance.files s in
      elim (Result-cases put.0) [
        | inl (a, e) ↦
            let last : whole.1 ≡ (put_files E os client key instance.files put.1).1 =
              ground arith in
            inr (
              subst (λ t. SomePut key instance.files (put_at key yaml (L.value s)) (L.value t))
                (sym last)
                (SomePut-before key instance.files _ (L.value put.1) _
                  (λ j storage. L.put_ok client key yaml j s e)
                  (put_files-SomePut client key instance.files put.1)))
        | inr failed ↦
            let last : whole.1 ≡ put.1 = elim failed [
              | inl x ↦ ground arith
              | inr x ↦ ground arith
            ] in
            subst (λ t. Partly instance (L.value s) (L.value t)) (sym last)
              (elim (V.put_ends client key yaml s) [
                | inl nothing ↦ inl nothing
                | inr done ↦ inr (Same-SomePut key instance.files _ _ done)
              ])
      ]

  commit-Partly :
      (c : WriterCall S O E.Client)
      → Partly c.shared (value_of c) (value_of (Updater.commit E os false c).1)
  unfolding Updater.commit
  commit-Partly c = put_instance-Partly c.self.fields.client c.shared c.world.etcd

  abbrev checked : WriterCall S O E.Client → WriterCall S O E.Client
  checked c = (validate (machine os) unmarshal server c).1

  abbrev finish : Action (WriterCall S O E.Client) Unit₀
  finish = Updater.commit E os false >> after_commit (machine os) unmarshal server

  -- What follows `Init` in `Apply`.
  abbrev rest : Action (WriterCall S O E.Client) Unit₀
  rest = check (validate (machine os) unmarshal server) (Updater.cancel E os) finish

  after-keeps :
      (c : WriterCall S O E.Client)
      → let d = (after_commit (machine os) unmarshal server c).1 in
        (d.world.etcd ≡ c.world.etcd) × (d.self ≡ c.self)
  after-keeps c = (
    grind (arith, refresh-keeps os unmarshal server c),
    grind (arith, refresh-keeps os unmarshal server c),
  )

  finish-keeps :
      (c : WriterCall S O E.Client)
      → let d = (finish c).1 in
        (d.self ≡ c.self) × (d.world.etcd ≡ (Updater.commit E os false c).1.world.etcd)
  finish-keeps c = (grind (arith, after-keeps, update-self E os false), grind (arith, after-keeps))

  rest-self : (c : WriterCall S O E.Client) → (rest c).1.self ≡ c.self
  unfolding Updater.cancel
  rest-self c = grind (arith, finish-keeps, validate-keeps os unmarshal server c)

  -- Behind the tools, either nothing is written or the commit is made.
  rest-etcd :
      (c : WriterCall S O E.Client)
      → ((rest c).1.world.etcd ≡ c.world.etcd)
        ⊎ ((rest c).1.world.etcd ≡ (Updater.commit E os false (checked c)).1.world.etcd)
  unfolding Updater.cancel
  rest-etcd c =
      let same = validate-keeps os unmarshal server c in
      elim (Result-cases (validate (machine os) unmarshal server c).0) [
        | inl (a, e) ↦ inr (ground (arith, finish-keeps (checked c)))
        | inr (inl (x, e)) ↦ inl (ground (arith, same))
        | inr (inr (x, e)) ↦ inl (ground (arith, same))
      ]

  abbrev initialised : WriterCall S O E.Client → WriterCall S O E.Client
  initialised c = (Updater.init E os c).1

  abbrev cleaned : WriterCall S O E.Client → WriterCall S O E.Client
  cleaned c = (Updater.run_cleanup_funcs E os c).1

  -- A call that does not get through `Init` has a panic there, or cleans up at once.
  apply_call-end :
      (c : WriterCall S O E.Client)
      → let d = (apply_call (machine os) unmarshal server false c).1 in
        (d ≡ initialised c)
        ⊎ ((d ≡ cleaned (initialised c)) ⊎ (d ≡ cleaned (rest (initialised c)).1))
  unfolding apply_call
  apply_call-end c = elim (Result-cases (Updater.init E os c).0) [
    | inl (a, e) ↦ inr (inr (ground arith))
    | inr (inl (x, e)) ↦ inr (inl (ground arith))
    | inr (inr (x, e)) ↦ inl (ground arith)
  ]

  cleaned-Same :
      (c d : WriterCall S O E.Client)
      → c.self.cleanup_funcs ≡ []
      → d.self ≡ (initialised c).self
      → Same (value_of (cleaned d)) (value_of d)
  cleaned-Same c d fresh same j storage =
      cleaned-keeps E os (λ s. L.value s j ≡ L.value d.world.etcd j) (obtained E os c) d
        (ap (λ (r : Receiver S (Updater.WriterFields E.Client)). r.cleanup_funcs) same
          ∙ (init-registers E os c ∙ ap (λ fs. fs ++ obtained E os c) fresh))
        (obtained-Preserves E os _ (release-Gentle E L os settings j _ storage)
          (get_instance_key c.shared.name) (E.new_client c.world.vars c.world.etcd))
        refl

  rest-Partly :
      (c : WriterCall S O E.Client)
      → Partly c.shared (value_of c) (value_of (rest (initialised c)).1)
  rest-Partly c =
      let c₁ = initialised c in
      let keeps = validate-keeps os unmarshal server c₁ in
      let whose = keeps.2 ∙ init-shared E os c in
      elim (rest-etcd c₁) [
        | inl e ↦ inl λ j storage. ap (λ s. L.value s j) e ∙ init-keeps E L os c j storage
        | inr e ↦
            Partly-after c.shared (value_of c) (value_of (Updater.commit E os false (checked c₁)).1)
              _ (λ j storage. ap (λ s. L.value s j) e)
              (Partly-before c.shared (value_of c) (value_of (checked c₁)) _
                (λ j storage. ap (λ s. L.value s j) keeps.0 ∙ init-keeps E L os c j storage)
                (subst
                  (λ i.
                    Partly i (value_of (checked c₁))
                      (value_of (Updater.commit E os false (checked c₁)).1))
                  whose (commit-Partly (checked c₁))))
      ]

  apply_call-Partly :
      (c : WriterCall S O E.Client)
      → c.self.cleanup_funcs ≡ []
      → Partly c.shared (value_of c) (value_of (apply_call (machine os) unmarshal server false c).1)
  apply_call-Partly c fresh =
      let unchanged = λ (j : String) (storage : IsStorageKey j). init-keeps E L os c j storage in
      elim (apply_call-end c) [
        | inl e ↦ inl λ j storage. ap (λ d. value_of d j) e ∙ unchanged j storage
        | inr (inl e) ↦ inl λ j storage.
            ap (λ d. value_of d j) e
            ∙ (cleaned-Same c (initialised c) fresh refl j storage ∙ unchanged j storage)
        | inr (inr e) ↦
            Partly-after c.shared _ _ _
              (λ j storage.
                ap (λ d. value_of d j) e
                ∙ cleaned-Same c (rest (initialised c)).1 fresh (rest-self (initialised c)) j
                    storage)
              (rest-Partly c)
      ]

  -- On a lawful etcd cluster, where a call that writes has, once it has returned, taken effect or
  -- not: an `Apply`, however it ends, by nil, an error or a panic, has left every key without the
  -- mark of a lock as it was, or has stored the yaml of the Instance and, in their order from the
  -- first one on, some or all of its files, and left the other keys alone. If it has returned nil,
  -- it has stored the yaml and all of the files.
  pub apply-Partly :
      (instance : Instance) (w : World S O (List String))
      → let done = apply (machine os) unmarshal server false instance w in
        Partly instance (L.value w.etcd) (L.value done.2.etcd)
        × (done.0 ≡ ok tt → Same (L.value done.2.etcd) (with_all instance (L.value w.etcd)))
  unfolding apply
  apply-Partly instance w = (
    elim (Option-cases (names_equate instance)) [
      | inl e ↦
          let call = apply_call-Partly (start (machine os) unmarshal server instance w) refl in
          Partly-after instance _ _ _ (λ j storage. ground arith) call
      | inr (x, e) ↦ inl λ j storage. ground arith
    ],
    λ h j storage.
        apply-stored E L os settings unmarshal instances_dir templates_dir enable_kustomize_build
          enable_kubectl instance w j storage h,
  )
