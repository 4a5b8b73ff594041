-- ===== src/Etcd/ReadBack.antt =====
-- An `Apply` and a `Get` behind it, over the etcd adapter.
use hambone.Base.{
  String, Bool, false, not, ◌&&◌, ◌≡◌, ◌≢◌, refl, sym, ap, ◌∙◌, some, List, [], ◌∷◌, map, arith,
}
use hambone.Go.{Result, ok}
use hambone.Pb.{Instance, GetOptions}
use hambone.Sys.{Os}
use hambone.State.Receiver.{World, machine, run_and_forget}
use hambone.Instances.Statuses.{ItemStatuses}
use hambone.Instances.Requests.{Server, apply, get}
use hambone.Etcd.Client.{Etcd}
use hambone.Etcd.Adapter.{get_instance_key}
use hambone.Etcd.Keys.{strip-get_instance_key}
use hambone.Etcd.Lawful.{IsLawful, IsStorageKey, entry}
use hambone.Etcd.Getter as Getter
use hambone.Etcd.Getter.{instance_of}
use hambone.Etcd.Getter.Run.{State, run-named, instance_named}
use hambone.Etcd.Updater.Commit.{with_instance_self}
use hambone.Etcd.Engine.{Settings, new_getter}
use hambone.Etcd.Server.{etcd_server}
use hambone.Etcd.Apply.{apply-stored}

module _ {S O : Type 0} (E : Etcd S) (L : IsLawful E) (os : Os O) (settings : Settings) where
  cleanup-shared : (c : State S O) → (Getter.run_cleanup_funcs E c).1.shared ≡ c.shared
  unfolding Getter.run_cleanup_funcs run_and_forget
  cleanup-shared c = refl

  module _ (unmarshal : String → Result ItemStatuses) (instances_dir templates_dir : String)
      (enable_kustomize_build enable_kubectl : Bool) where
    abbrev server : Server (World S O (List String))
    server =
        etcd_server E os settings instances_dir templates_dir enable_kustomize_build enable_kubectl

    -- The call of the getter that a `Get` makes.
    abbrev asked : GetOptions → World S O (List String) → State S O
    asked options w = record {
      world = w;
      shared = [];
      self = new_getter E os options instances_dir;
    }

    get-run :
        (options : GetOptions) (w : World S O (List String))
        → (enable_kubectl && not options.exclude_statuses) ≡ false
        → (get (machine os) unmarshal server options w).0 ≡ ok tt
        → ((Getter.run E (asked options w)).0 ≡ ok tt)
          × ((get (machine os) unmarshal server options w).1
              ≡ (Getter.run E (asked options w)).1.shared)
    unfolding get
    get-run options w bare h = (
      ground (arith, cleanup-shared (Getter.run E (asked options w)).1),
      ground (arith, cleanup-shared (Getter.run E (asked options w)).1),
    )

    -- What a `Get` for a name answers.
    pub get-named :
        (options : GetOptions) (w : World S O (List String))
        → options.name ≢ ""
        → (enable_kubectl && not options.exclude_statuses) ≡ false
        → (get (machine os) unmarshal server options w).0 ≡ ok tt
        → let key = get_instance_key options.name in
          (get (machine os) unmarshal server options w).1
          ≡ map instance_of (entry key (L.value w.etcd key))
    get-named options w named bare got =
        let (ran, answered) = get-run options w bare got in
        answered ∙ run-named E L (asked options w) named ran

    -- An Instance that an `Apply` over a lawful etcd cluster has stored is, as long as its name is
    -- not empty and its key has no mark of a lock, what a `Get` for its name right after it
    -- answers, if both return nil and no statuses are asked for or kubectl is not enabled: one
    -- Instance with that name and yaml, and no files.
    pub get-applied :
        (instance : Instance) (options : GetOptions) (w : World S O (List String))
        → IsStorageKey (get_instance_key instance.name)
        → options.name ≡ instance.name
        → instance.name ≢ ""
        → (enable_kubectl && not options.exclude_statuses) ≡ false
        → (apply (machine os) unmarshal server false instance w).0 ≡ ok tt
        → let w' = (apply (machine os) unmarshal server false instance w).2 in
          (get (machine os) unmarshal server options w').0 ≡ ok tt
          → (get (machine os) unmarshal server options w').1
            ≡ instance_named instance.name instance.kustomization_yaml ∷ []
    get-applied instance options w storage same named bare applied got =
        let w' = (apply (machine os) unmarshal server false instance w).2 in
        let key = get_instance_key instance.name in
        let held : L.value w'.etcd key ≡ some instance.kustomization_yaml =
          apply-stored E L os settings unmarshal instances_dir templates_dir enable_kustomize_build
            enable_kubectl instance w key storage applied
          ∙ with_instance_self instance _ in
        get-named options w' (λ e. named (sym same ∙ e)) bare got
        ∙ (ap
              (λ n.
                map instance_of (entry (get_instance_key n) (L.value w'.etcd (get_instance_key n))))
              same
            ∙ (ap (λ v. map instance_of (entry key v)) held
                ∙ ap (λ n. instance_named n instance.kustomization_yaml ∷ [])
                    (strip-get_instance_key instance.name)))
