-- ===== src/Etcd/Shared/Swaps.antt =====
-- What a whole `Apply` and a whole `Delete` do to a key that other clients want to write to.
use hambone.Base.{
  String, Bool, true, false, ◌≡◌, refl, sym, ap, subst, ◌∙◌, Option, none, some, List, [], ◌∷◌,
  ◌++◌, arith,
}
use hambone.Go.{Result, ok}
use hambone.Pb.{Instance, OldInstance, File}
use hambone.Sys.{Os}
use hambone.State.Receiver.{World, machine}
use hambone.Instances.Statuses.{ItemStatuses}
use hambone.Instances.Requests.{Server, apply, delete, validate}
use hambone.Instances.Requests.Apply.{start}
use hambone.Etcd.Client.{Etcd}
use hambone.Etcd.Gentle.{IsGentle}
use hambone.Etcd.Adapter.{get_instance_key, get_file_key}
use hambone.Etcd.Keys.{file_key-ne-key, key-starts_with}
use hambone.Etcd.Updater as Updater
use hambone.Etcd.Updater.{WriterCall, put_files, put_instance}
use hambone.Etcd.Engine.{Settings}
use hambone.Etcd.Server.{etcd_server}
use hambone.Etcd.Server.Released.{init-shared, apply-released, delete-released}
use hambone.Instances.Requests.Tools.{validate-keeps, withdraw-keeps}
use mathlib.Core.List.{append_assoc}
use hambone.Etcd.Shared.{History, latest, lock_name, IsShared}
use hambone.Etcd.Deleter as Deleter
use hambone.Etcd.Deleter.{delete_instance}
use hambone.Etcd.Deleter.Registered.{init-name}
use hambone.Instances.Requests.Delete.{begin, withdrawn}
use hambone.Etcd.Shared.Compared.{
  init-holds, init-latest, delete_init-holds, delete_init-latest, latest-some,
}

module _ {S O : Type 0} (E : Etcd S) (H : IsShared E) (os : Os O) where
  put_files-history :
      (client : E.Client) (key : String) (files : List File) (s : S)
      → H.holds s (lock_name key) ≡ true
      → (put_files E os client key files s).0 ≡ ok tt
      → H.history (put_files E os client key files s).1 key ≡ H.history s key
  unfolding put_files
  put_files-history client key [] s held h = refl
  put_files-history client key (file ∷ files) s held h = ground (
    arith,
    file_key-ne-key key file.name,
    H.put_holds client (get_file_key key file.name) file.contents key s held,
    H.put_history client (get_file_key key file.name) file.contents key s held,
    put_files-history client key files
        (E.put client (get_file_key key file.name) file.contents s).1,
  )

  put_instance-history :
      (client : Option E.Client) (key yaml : String) (files : List File) (s : S)
      → H.holds s (lock_name key) ≡ true
      → (put_instance E os client key yaml files s).0 ≡ ok tt
      → H.history (put_instance E os client key yaml files s).1 key ≡ some yaml ∷ H.history s key
  put_instance-history none key yaml files s held h = cc
  put_instance-history (some client) key yaml files s held h = ground (
    arith,
    H.put_holds client key yaml key s held,
    H.put_history client key yaml key s held,
    put_files-history client key files (E.put client key yaml s).1,
  )

  delete_instance-history :
      (client : Option E.Client) (key : String) (s : S)
      → H.holds s (lock_name key) ≡ true
      → (delete_instance E os client key s).0 ≡ ok tt
      → H.history (delete_instance E os client key s).1 key ≡ none ∷ H.history s key
  delete_instance-history none key s held h = cc
  delete_instance-history (some client) key s held h =
      ground (arith, H.delete_prefix_history client key key s held, key-starts_with key)

  -- What is stored under `key` was put in place of `old`, and what others did came before or after.
  abbrev pub Swapped : String → Option String → Option String → S → Type 0
  Swapped key old new s =
      (later : History) × (before : History) × (H.history s key ≡ later ++ (new ∷ old ∷ before))

  later-Swapped :
      (key : String) (old new : Option String) (s t : S) (more : History)
      → H.history t key ≡ more ++ H.history s key
      → Swapped key old new s
      → Swapped key old new t
  later-Swapped key old new s t more e (later, before, f) = (
    more ++ later,
    before,
    e ∙ (ap (λ h. more ++ h) f ∙ sym (append_assoc more later (new ∷ old ∷ before))),
  )

  release-Gentle : (key : String) (old new : Option String) → IsGentle E (Swapped key old new)
  release-Gentle key old new = record {
    close_client_gentle =
        λ c s. let (more, e) = H.close_client_later c key s in later-Swapped key old new s _ more e;
    cancel_gentle =
        λ x s. let (more, e) = H.cancel_later x key s in later-Swapped key old new s _ more e;
    close_session_gentle = λ x s.
        let (more, e) = H.close_session_later x key s in later-Swapped key old new s _ more e;
    unlock_gentle =
        λ m s. let (more, e) = H.unlock_later m key s in later-Swapped key old new s _ more e;
  }

  module _ (c : WriterCall S O E.Client) (name : String) (s : S) (old : String)
      (named : c.shared.name ≡ name) (at : c.world.etcd ≡ s)
      (held : H.holds s (lock_name (get_instance_key name)) ≡ true)
      (same : latest (H.history s (get_instance_key name)) ≡ some old) where
    held_here : H.holds c.world.etcd (lock_name (get_instance_key c.shared.name)) ≡ true
    held_here = rw (at, named) held

    old_here :
        (before : History) × (H.history c.world.etcd (get_instance_key c.shared.name)
          ≡ some old ∷ before)
    old_here = latest-some _ old (rw (at, named) same)

    -- A commit of the updater under the mutex, behind a comparison with what is stored.
    commit-Swapped :
        (b : Bool)
        → (Updater.commit E os b c).0 ≡ ok tt
        → Swapped
            (get_instance_key name)
            (some old)
            (some c.shared.kustomization_yaml)
            (Updater.commit E os b c).1.world.etcd
    unfolding Updater.commit
    commit-Swapped b h =
        let key = get_instance_key c.shared.name in
        let yaml = c.shared.kustomization_yaml in
        let stored =
          put_instance-history c.self.fields.client key yaml c.shared.files c.world.etcd held_here
            h in
        (
          [],
          old_here.0,
          ap (λ n. H.history (Updater.commit E os b c).1.world.etcd (get_instance_key n))
                (sym named)
              ∙ (stored ∙ ap (λ x. some yaml ∷ x) old_here.1),
        )

    -- The same of the deleter.
    delete-Swapped :
        (Deleter.commit E os c).0 ≡ ok tt
        → Swapped (get_instance_key name) (some old) none (Deleter.commit E os c).1.world.etcd
    unfolding Deleter.commit
    delete-Swapped h =
        let key = get_instance_key c.shared.name in
        let gone = delete_instance-history c.self.fields.client key c.world.etcd held_here h in
        (
          [],
          old_here.0,
          ap (λ n. H.history (Deleter.commit E os c).1.world.etcd (get_instance_key n)) (sym named)
              ∙ (gone ∙ ap (λ x. none ∷ x) old_here.1),
        )

module _ {S O : Type 0} (E : Etcd S) (H : IsShared E) (os : Os O) (settings : Settings)
    (unmarshal : String → Result ItemStatuses) (instances_dir templates_dir : String)
    (enable_kustomize_build enable_kubectl : Bool) where
  abbrev server : Server (World S O (List String))
  server =
      etcd_server E os settings instances_dir templates_dir enable_kustomize_build enable_kubectl

  -- An `Apply` over an etcd cluster that others write to, which returned nil for an Instance with
  -- an OldInstance, has put the yaml of the Instance in place of exactly the yaml of OldInstance:
  -- nobody wrote to the key between the comparison and the commit.
  pub apply-swaps :
      (instance : Instance) (old : OldInstance) (w : World S O (List String))
      → instance.old_instance ≡ some old
      → (apply (machine os) unmarshal server false instance w).0 ≡ ok tt
      → Swapped E H os
          (get_instance_key instance.name)
          (some old.kustomization_yaml)
          (some instance.kustomization_yaml)
          (apply (machine os) unmarshal server false instance w).2.etcd
  apply-swaps instance old w e h =
      apply-released E os settings unmarshal instances_dir templates_dir enable_kustomize_build
        enable_kubectl _ (release-Gentle E H os _ _ _) instance w h
        λ d through.
          let c = start (machine os) unmarshal server instance w in
          let c₁ = (Updater.init E os c).1 in
          let c₂ = (validate (machine os) unmarshal server c₁).1 in
          let same = validate-keeps os unmarshal server c₁ in
          let key = get_instance_key instance.name in
          let whose : c₂.shared ≡ instance = same.2 ∙ init-shared E os c in
          let held = init-holds E H os c through.init_ok in
          let passed = init-latest E H os c old e through.init_ok in
          subst
            (λ yaml.
              Swapped E H os (get_instance_key instance.name) (some old.kustomization_yaml)
                (some yaml) (Updater.commit E os false c₂).1.world.etcd)
            (ap (λ (i : Instance). i.kustomization_yaml) whose)
            (commit-Swapped E H os c₂ instance.name c₁.world.etcd old.kustomization_yaml
              (ap (λ (i : Instance). i.name) whose) same.0 held passed false through.commit_ok)

  -- A `Delete` over an etcd cluster that others write to, which returned nil for an Instance with
  -- an OldInstance, has deleted exactly the yaml of OldInstance from the key of the Instance:
  -- nobody wrote to the key between the comparison and the commit.
  pub delete-swaps :
      (instance : Instance) (old : OldInstance) (w : World S O (List String))
      → instance.old_instance ≡ some old
      → (delete (machine os) unmarshal server instance w).0 ≡ ok tt
      → Swapped E H os
          (get_instance_key instance.name)
          (some old.kustomization_yaml)
          none
          (delete (machine os) unmarshal server instance w).2.etcd
  delete-swaps instance old w e h =
      delete-released E os settings unmarshal instances_dir templates_dir enable_kustomize_build
        enable_kubectl _ (release-Gentle E H os _ _ _) instance w h
        λ d through.
          let c = begin (machine os) unmarshal server instance w in
          let c₁ = (Deleter.init E os c).1 in
          let same = withdraw-keeps os unmarshal server c₁ in
          delete-Swapped E H os (withdrawn (machine os) unmarshal server c) instance.name
            c₁.world.etcd old.kustomization_yaml
            (ap (λ (i : Instance). i.name) same.2 ∙ init-name E os c) same.0
            (delete_init-holds E H os c through.init_ok)
            (delete_init-latest E H os c old e through.init_ok) through.commit_ok
