-- ===== src/Etcd/Success.antt =====
-- A whole `Apply` over the etcd adapter when nothing fails.
use hambone.Base.{◌∙◌, String, Bool, true, false, ◌≡◌, ◌≢◌, refl, some, List, arith}
use hambone.Go.{panic_over, Result, ok, err, panicked, Unit₀}
use hambone.Pb.{Instance, OldInstance}
use hambone.Sys.{Os}
use hambone.State.Receiver.{World, machine}
use hambone.Instances.Statuses.{ItemStatuses}
use hambone.Instances.Requests.{Server, apply, apply_call, validate, refresh, after_commit}
use hambone.Instances.Requests.Apply.{names_equate-none, start, apply_call-through}
use hambone.Etcd.Updater.Cleanup.{cleanup-quiet}
use hambone.Etcd.Client.{Etcd}
use hambone.Etcd.Adapter.{get_instance_key}
use hambone.Etcd.Lawful.{IsLawful, IsStorageKey}
use hambone.Etcd.Updater as Updater
use hambone.Etcd.Updater.{WriterCall}
use hambone.Etcd.Engine.{Settings}
use hambone.Etcd.Server.{etcd_server}
use hambone.Etcd.Reliable.{is_ok, IsReliable, init-succeeds, put_files-ok}

is_ok-ok : (r : Result Unit₀) → is_ok r ≡ true → r ≡ ok tt
is_ok-ok (ok a) h = refl
is_ok-ok (err e) h = cc
is_ok-ok (panicked p) h = cc

not_panicked-over :
    (q : Result Unit₀) → ((p : String) → q ≢ panicked p) → panic_over (ok tt) q ≡ ok tt
not_panicked-over (ok a) h = refl
not_panicked-over (err e) h = refl
not_panicked-over (panicked p) h = absurd (h p refl)

module _ {S O : Type 0} (E : Etcd S) (L : IsLawful E) (os : Os O) (R : IsReliable E os)
    (settings : Settings) where
  commit-succeeds :
      (skip_commit : Bool) (c : WriterCall S O E.Client) (client : E.Client)
      → c.self.fields.client ≡ some client
      → (Updater.commit E os skip_commit c).0 ≡ ok tt
  unfolding Updater.commit
  commit-succeeds skip_commit c client e =
      is_ok-ok _ (grind (arith, e, R.put_ok, put_files-ok E L os R client))

  module _ (unmarshal : String → Result ItemStatuses) (instances_dir templates_dir : String) where
    -- The server, without the tools.
    abbrev server : Server (World S O (List String))
    server = etcd_server E os settings instances_dir templates_dir false false

    committed-registered :
        (skip_commit : Bool) (c : WriterCall S O E.Client)
        → let done = (Updater.commit E os skip_commit (Updater.init E os c).1).1 in
          (after_commit (machine os) unmarshal server done).1.self.cleanup_funcs
          ≡ (Updater.init E os c).1.self.cleanup_funcs
    unfolding Updater.commit refresh
    committed-registered skip_commit c = refl

    -- An `Apply` over a lawful etcd cluster without the tools returns nil, if no call that it makes
    -- of the cluster and of the machine fails, but for the calls that clean up, which do not panic,
    -- the key of the Instance has no mark of a lock, and
    -- an OldInstance, if there is one, has the name of the Instance and the yaml that is stored.
    pub apply-succeeds :
        (skip_commit : Bool) (instance : Instance) (w : World S O (List String))
        → IsStorageKey (get_instance_key instance.name)
        → ((old : OldInstance)
            → instance.old_instance ≡ some old
            → (instance.name ≡ old.name)
              × (L.value w.etcd (get_instance_key instance.name) ≡ some old.kustomization_yaml))
        → (apply (machine os) unmarshal server skip_commit instance w).0 ≡ ok tt
    unfolding apply validate refresh
    apply-succeeds skip_commit instance w storage old =
        let c = start (machine os) unmarshal server instance w in
        let (started, (client, e)) = init-succeeds E L os R c storage (λ o h. (old o h).1) in
        let equal = names_equate-none (machine os) unmarshal server instance (λ o h. (old o h).0) in
        let begun = is_ok-ok _ started in
        let stored = commit-succeeds skip_commit (Updater.init E os c).1 client e in
        let done = (Updater.commit E os skip_commit (Updater.init E os c).1).1 in
        let last = (after_commit (machine os) unmarshal server done).1 in
        let ended =
          apply_call-through (machine os) unmarshal server skip_commit c begun refl stored refl in
        let quiet = cleanup-quiet E R.quiet os c last refl (committed-registered skip_commit c) in
        let called : (apply_call (machine os) unmarshal server skip_commit c).0 ≡ ok tt =
          ended ∙ not_panicked-over (Updater.run_cleanup_funcs E os last).0 quiet in
        ground (arith, equal, called)
