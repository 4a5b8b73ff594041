-- ===== src/Etcd/Apply.antt =====
-- A whole `Apply` over the etcd adapter: what is stored when it has succeeded.
use hambone.Base.{String, Bool, false, ◌≡◌, ap, ◌∙◌, Option, List}
use hambone.Go.{Result, ok}
use hambone.Pb.{Instance}
use hambone.Sys.{Os}
use hambone.State.Receiver.{World, machine}
use hambone.Instances.Statuses.{ItemStatuses}
use hambone.Instances.Requests.{Server, validate, apply}
use hambone.Instances.Requests.Apply.{start, validated, committed}
use hambone.Etcd.Client.{Etcd}
use hambone.Etcd.Lawful.{IsLawful, IsStorageKey}
use hambone.Etcd.Updater as Updater
use hambone.Etcd.Updater.{WriterCall}
use hambone.Etcd.Updater.Init.{init-keeps}
use hambone.Etcd.Updater.Commit.{with_instance, commit-value}
use hambone.Etcd.Gentle.{IsGentle}
use hambone.Etcd.Engine.{Settings}
use hambone.Etcd.Server.{etcd_server}
use hambone.Etcd.Server.Released.{init-shared, apply-released}
use hambone.Instances.Requests.Tools.{validate-keeps}

module _ {S O : Type 0} (E : Etcd S) (L : IsLawful E) (os : Os O) (settings : Settings) where
  -- What `j` holds is not changed by what gives back what `Init` obtained.
  pub release-Gentle :
      (j : String) (v : Option String) → IsStorageKey j → IsGentle E (λ s. L.value s j ≡ v)
  release-Gentle j v storage = record {
    close_client_gentle = λ c s p. L.close_client_value c j s ∙ p;
    cancel_gentle = λ x s p. L.cancel_value x j s ∙ p;
    close_session_gentle = λ x s p. L.close_session_value x j s storage ∙ p;
    unlock_gentle = λ m s p. L.unlock_value m j s storage ∙ p;
  }

  module _ (unmarshal : String → Result ItemStatuses) (instances_dir templates_dir : String)
      (enable_kustomize_build enable_kubectl : Bool) where
    abbrev server : Server (World S O (List String))
    server =
        etcd_server E os settings instances_dir templates_dir enable_kustomize_build enable_kubectl

    -- What a key holds when the commit has returned.
    committed-value :
        (c : WriterCall S O E.Client) (j : String)
        → IsStorageKey j
        → (Updater.commit E os false (validated (machine os) unmarshal server false c)).0 ≡ ok tt
        → L.value (committed (machine os) unmarshal server false c).world.etcd j
          ≡ with_instance c.shared j (L.value c.world.etcd j)
    committed-value c j storage h =
        let c₁ = (Updater.init E os c).1 in
        let c₂ = (validate (machine os) unmarshal server c₁).1 in
        let same = validate-keeps os unmarshal server c₁ in
        commit-value E L os false c₂ j h
        ∙ (ap (λ i. with_instance i j (L.value c₂.world.etcd j)) (same.2 ∙ init-shared E os c)
            ∙ ap (with_instance c.shared j)
                (ap (λ s. L.value s j) same.0 ∙ init-keeps E L os c j storage))

    -- After an `Apply` over a lawful etcd cluster that returned nil, a key without the mark of a
    -- lock holds the yaml of the Instance if it is the key of the Instance, the contents of the
    -- last such file if it is the key of a file of it, and else what it held before.
    pub apply-stored :
        (instance : Instance) (w : World S O (List String)) (j : String)
        → IsStorageKey j
        → (apply (machine os) unmarshal server false instance w).0 ≡ ok tt
        → L.value (apply (machine os) unmarshal server false instance w).2.etcd j
          ≡ with_instance instance j (L.value w.etcd j)
    apply-stored instance w j storage h =
        let v = with_instance instance j (L.value w.etcd j) in
        apply-released E os settings unmarshal instances_dir templates_dir enable_kustomize_build
          enable_kubectl (λ s. L.value s j ≡ v) (release-Gentle j v storage) instance w h
          λ d through.
            committed-value (start (machine os) unmarshal server instance w) j storage
              through.commit_ok
