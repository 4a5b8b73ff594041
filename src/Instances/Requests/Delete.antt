-- ===== src/Instances/Requests/Delete.antt =====
-- How `Delete` ends, branch by branch.
use hambone.Base.{String, ◌≡◌, none, arith}
use hambone.Go.{Result, ok}
use hambone.Pb.{Instance}
use hambone.Sys.{Os}
use hambone.State.{Engine}
use hambone.State.Method.{Call}
use hambone.State.Contract.{IsDeleter}
use hambone.Instances.Statuses.{ItemStatuses}
use hambone.Instances.Requests.{Server, names_equate, withdraw, delete_call, delete, forget_old}

module _ {W : Type 0} (os : Os W) (unmarshal : String → Result ItemStatuses)
    (server : Server W) where
  abbrev store : Engine W
  store = server.state_store

  module _ (c : Call W Instance store.D) where
    abbrev pub examined : Call W Instance store.D
    examined = (store.deleter.init c).1

    abbrev pub withdrawn : Call W Instance store.D
    withdrawn = (withdraw os unmarshal server examined).1

  -- What a successful call went through.
  pub record Deleted (c d : Call W Instance store.D) : Type 0 where
    pub init_ok : (store.deleter.init c).0 ≡ ok tt
    pub withdraw_ok : (withdraw os unmarshal server (examined c)).0 ≡ ok tt
    pub commit_ok : (store.deleter.commit (withdrawn c)).0 ≡ ok tt
    pub cleaned :
        d
        ≡ (store.deleter.run_cleanup_funcs
            (forget_old os unmarshal server (store.deleter.commit (withdrawn c)).1).1).1

  delete_call-ok :
      IsDeleter store.deleter
      → (c : Call W Instance store.D) → (delete_call os unmarshal server c).0 ≡ ok tt
      → Deleted c (delete_call os unmarshal server c).1
  unfolding delete_call
  delete_call-ok contract c h = record {
    init_ok = ground arith;
    withdraw_ok = grind (arith, contract.cancel_fails);
    commit_ok = grind (arith, contract.cancel_fails);
    cleaned = grind (arith, contract.cancel_fails);
  }

  -- The call of the deleter that `Delete` makes.
  abbrev pub begin : Instance → W → Call W Instance store.D
  begin instance w = record {
    world = w;
    shared = instance;
    self = store.new_deleter instance server.instances_dir;
  }

  -- For a deleter that keeps its contract, a `Delete` that returns nil found the names equal, went
  -- through `Init`, the tools and `Commit` without an error, and cleaned up at the end.
  pub delete-ok :
      IsDeleter store.deleter
      → (instance : Instance) (w : W) → (delete os unmarshal server instance w).0 ≡ ok tt
      → let d = (delete_call os unmarshal server (begin instance w)).1 in
        (names_equate instance ≡ none)
        × Deleted (begin instance w) d
        × (delete os unmarshal server instance w ≡ (ok tt, d.shared, d.world))
  unfolding delete
  delete-ok contract instance w h =
      let done : (delete_call os unmarshal server (begin instance w)).0 ≡ ok tt = ground arith in
      (ground arith, delete_call-ok contract (begin instance w) done, ground arith)
