-- ===== src/Instances/Requests/Apply.antt =====
-- How `Apply` ends, branch by branch.
use hambone.Base.{String, Bool, ◌≡◌, ◌≢◌, refl, ◌∙◌, ap, Option, none, some, arith}
use hambone.Go.{Error, Result, ok, err, Action, Unit₀, ◌>>◌, panic_over}
use hambone.Pb.{Instance, OldInstance}
use hambone.Sys.{Os}
use hambone.State.{Engine}
use hambone.State.Method.{Call}
use hambone.State.Contract.{IsUpdater}
use hambone.Instances.Statuses.{ItemStatuses}
use hambone.Instances.Requests.{
  Server, instance_name_mismatch_error, names_equate, validate, after_commit, apply_call, apply,
  delete, forget_old, refresh,
}

module _ {W : Type 0} (os : Os W) (unmarshal : String → Result ItemStatuses)
    (server : Server W) where
  abbrev store : Engine W
  store = server.state_store

  -- A request with an OldInstance of another name is refused by InstanceNameMismatchError, to apply
  -- as to delete, and changes nothing.
  mismatch_refused :
      (skip_commit : Bool) (instance : Instance) (old : OldInstance) (w : W)
      → instance.old_instance ≡ some old
      → instance.name ≢ old.name
      → (apply os unmarshal server skip_commit instance w
          ≡ (err instance_name_mismatch_error, instance, w))
        × (delete os unmarshal server instance w ≡ (err instance_name_mismatch_error, instance, w))
  unfolding apply delete
  mismatch_refused skip_commit instance old w e differ = (ground arith, ground arith)

  pub names_equate-none :
      (instance : Instance)
      → ((old : OldInstance) → instance.old_instance ≡ some old → instance.name ≡ old.name)
      → names_equate instance ≡ none
  unfolding names_equate
  names_equate-none instance h = go instance.old_instance refl
    where
      go : (o : Option OldInstance) → instance.old_instance ≡ o → names_equate instance ≡ none
      go none e = ground arith
      go (some old) e = ground (arith, h old e)

  -- The call of the updater that `Apply` makes.
  abbrev pub start : Instance → W → Call W Instance store.U
  start instance w = record {
    world = w;
    shared = instance;
    self = store.new_updater instance server.instances_dir;
  }

  module _ (skip_commit : Bool) (c : Call W Instance store.U) where
    abbrev pub initialised : Call W Instance store.U
    initialised = (store.updater.init c).1

    abbrev pub validated : Call W Instance store.U
    validated = (validate os unmarshal server initialised).1

    abbrev pub committed : Call W Instance store.U
    committed = (store.updater.commit skip_commit validated).1

  -- What a successful call went through.
  pub record Succeeded (skip_commit : Bool) (c d : Call W Instance store.U) : Type 0 where
    pub init_ok : (store.updater.init c).0 ≡ ok tt
    pub validate_ok : (validate os unmarshal server (initialised skip_commit c)).0 ≡ ok tt
    pub commit_ok : (store.updater.commit skip_commit (validated skip_commit c)).0 ≡ ok tt
    pub cleaned :
        d
        ≡ (store.updater.run_cleanup_funcs
            (after_commit os unmarshal server (committed skip_commit c)).1).1

  pub apply_call-ok :
      IsUpdater store.updater
      → (skip_commit : Bool) (c : Call W Instance store.U)
      → (apply_call os unmarshal server skip_commit c).0 ≡ ok tt
      → Succeeded skip_commit c (apply_call os unmarshal server skip_commit c).1
  unfolding apply_call
  apply_call-ok contract skip_commit c h = record {
    init_ok = ground arith;
    validate_ok = grind (arith, contract.cancel_fails);
    commit_ok = grind (arith, contract.cancel_fails);
    cleaned = grind (arith, contract.cancel_fails);
  }

  -- Behind `Init`, the tools and the commit, only a panic of the cleanup keeps `Apply` from nil.
  pub apply_call-through :
      (skip_commit : Bool) (c : Call W Instance store.U)
      → (store.updater.init c).0 ≡ ok tt
      → (validate os unmarshal server (initialised skip_commit c)).0 ≡ ok tt
      → (store.updater.commit skip_commit (validated skip_commit c)).0 ≡ ok tt
      → (after_commit os unmarshal server (committed skip_commit c)).0 ≡ ok tt
      → (apply_call os unmarshal server skip_commit c).0
        ≡ panic_over
            (ok tt)
            (store.updater.run_cleanup_funcs
              (after_commit os unmarshal server (committed skip_commit c)).1).0
  unfolding apply_call
  apply_call-through skip_commit c started valid stored shown = ground arith

  -- If `Init` fails, `Apply` fails with the same error or by a panic of the cleanup, and what it still
  -- does is to clean up: it runs no tool and does not commit.
  pub apply_call-not_started :
      (skip_commit : Bool) (c : Call W Instance store.U) (e : Error)
      → (store.updater.init c).0 ≡ err e
      → apply_call os unmarshal server skip_commit c ≡ (
        panic_over (err e) (store.updater.run_cleanup_funcs (initialised skip_commit c)).0,
        (store.updater.run_cleanup_funcs (initialised skip_commit c)).1,
      )
  unfolding apply_call
  apply_call-not_started skip_commit c e failed = ground arith

  forget_old-forgets :
      (m : Action (Call W Instance store.U) Unit₀) (c : Call W Instance store.U)
      → ((m >> forget_old os unmarshal server) c).0 ≡ ok tt
      → ((m >> forget_old os unmarshal server) c).1.shared.old_instance ≡ none
  forget_old-forgets m c h = ground arith

  after_commit-ok :
      (skip_commit : Bool) (c : Call W Instance store.U)
      → IsUpdater store.updater
      → (apply_call os unmarshal server skip_commit c).0 ≡ ok tt
      → (after_commit os unmarshal server (committed skip_commit c)).0 ≡ ok tt
  unfolding apply_call
  after_commit-ok skip_commit c contract h = grind (arith, contract.cancel_fails)

  -- For an updater that keeps its contract, an `Apply` that returns nil found the names equal, went
  -- through `Init`, the tools and `Commit` without an error, cleaned up at the end, and answers
  -- with an Instance that has no OldInstance.
  pub apply-ok :
      IsUpdater store.updater
      → (skip_commit : Bool) (instance : Instance) (w : W)
      → (apply os unmarshal server skip_commit instance w).0 ≡ ok tt
      → let c = start instance w in
        let d = (apply_call os unmarshal server skip_commit c).1 in
        (names_equate instance ≡ none)
        × Succeeded skip_commit c d
        × (apply os unmarshal server skip_commit instance w ≡ (ok tt, d.shared, d.world))
        × (d.shared.old_instance ≡ none)
  unfolding apply
  apply-ok contract skip_commit instance w h =
      let c = start instance w in
      let done : (apply_call os unmarshal server skip_commit c).0 ≡ ok tt = ground arith in
      let through = apply_call-ok contract skip_commit c done in
      (
        ground arith,
        through,
        ground arith,
        ap (λ (d : Call W Instance store.U). d.shared.old_instance) through.cleaned
            ∙ (ap (λ (i : Instance). i.old_instance) (contract.cleanup_shared _)
                ∙ forget_old-forgets (refresh os unmarshal server) (committed skip_commit c)
                    (after_commit-ok skip_commit c contract done)),
      )
