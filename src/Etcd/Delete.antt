-- ===== src/Etcd/Delete.antt =====
-- A whole `Delete` over the etcd adapter: what is stored when it has succeeded.
use hambone.Base.{String, Bool, ◌≡◌, ap, ◌∙◌, none, List, if◌then◌else◌, starts_with}
use hambone.Go.{Result, ok}
use hambone.Pb.{Instance}
use hambone.Sys.{Os}
use hambone.State.Receiver.{World, machine}
use hambone.Instances.Statuses.{ItemStatuses}
use hambone.Instances.Requests.{Server, delete}
use hambone.Instances.Requests.Delete.{begin, withdrawn}
use hambone.Instances.Requests.Tools.{withdraw-keeps}
use hambone.Etcd.Client.{Etcd}
use hambone.Etcd.Adapter.{get_instance_key}
use hambone.Etcd.Lawful.{IsLawful, IsStorageKey}
use hambone.Etcd.Updater.{WriterCall}
use hambone.Etcd.Deleter as Deleter
use hambone.Etcd.Deleter.Laws.{init-preserves, commit-deletes}
use hambone.Etcd.Deleter.Registered.{init-name}
use hambone.Etcd.Engine.{Settings}
use hambone.Etcd.Apply.{release-Gentle}
use hambone.Etcd.Server.{etcd_server}
use hambone.Etcd.Server.Released.{delete-released}

module _ {S O : Type 0} (E : Etcd S) (L : IsLawful E) (os : Os O) (settings : Settings) where
  module _ (unmarshal : String → Result ItemStatuses) (instances_dir templates_dir : String)
      (enable_kustomize_build enable_kubectl : Bool) where
    abbrev server : Server (World S O (List String))
    server =
        etcd_server E os settings instances_dir templates_dir enable_kustomize_build enable_kubectl

    -- What a key holds when the commit has returned.
    removed-value :
        (c : WriterCall S O E.Client) (j : String)
        → IsStorageKey j
        → let taken = withdrawn (machine os) unmarshal server c in
          (Deleter.commit E os taken).0 ≡ ok tt
          → L.value (Deleter.commit E os taken).1.world.etcd j ≡ (
              if starts_with j (get_instance_key c.shared.name)
              then none
              else L.value c.world.etcd j)
    removed-value c j storage h =
        let taken = withdrawn (machine os) unmarshal server c in
        let same = withdraw-keeps os unmarshal server (Deleter.init E os c).1 in
        let name = ap (λ (i : Instance). i.name) same.2 ∙ init-name E os c in
        commit-deletes E L os taken j h
        ∙ (ap (λ n. if starts_with j (get_instance_key n) then none else L.value taken.world.etcd j)
              name
            ∙ ap (λ v. if starts_with j (get_instance_key c.shared.name) then none else v)
                (ap (λ s. L.value s j) same.0 ∙ init-preserves E L os c j storage))

    -- After a `Delete` over a lawful etcd cluster that returned nil, a key without the mark of a
    -- lock holds nothing if it begins with the key of the Instance, and else what it held before.
    pub delete-removed :
        (instance : Instance) (w : World S O (List String)) (j : String)
        → IsStorageKey j
        → (delete (machine os) unmarshal server instance w).0 ≡ ok tt
        → L.value (delete (machine os) unmarshal server instance w).2.etcd j
          ≡ (if starts_with j (get_instance_key instance.name) then none else L.value w.etcd j)
    delete-removed instance w j storage h =
        let v = if starts_with j (get_instance_key instance.name) then none else L.value w.etcd j in
        delete-released E os settings unmarshal instances_dir templates_dir enable_kustomize_build
          enable_kubectl (λ s. L.value s j ≡ v) (release-Gentle E L os settings j v storage)
          instance w h
          λ d through.
            removed-value (begin (machine os) unmarshal server instance w) j storage
              through.commit_ok
