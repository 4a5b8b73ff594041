-- ===== src/Instances/Requests/Tools.antt =====
-- What the runs of kustomize and kubectl do not change.
use hambone.Base.{String, ◌≡◌, List, [], ◌∷◌, arith}
use hambone.Go.{Result}
use hambone.Pb.{Instance}
use hambone.Sys.{Os}
use hambone.State.Method.{Call}
use hambone.State.Receiver.{World, machine}
use hambone.Instances.Exec.{pipe_kustomize_to_kubectl, kustomize_build}
use hambone.Instances.Statuses.{ItemStatuses, load_statuses}
use hambone.Instances.Requests.{Server, validate, refresh, withdraw}

module _ {S O V : Type 0} (os : Os O) where
  -- The tools leave the state store alone.
  pipe-keeps :
      (dir : String) (args : List String) (w : World S O V)
      → (pipe_kustomize_to_kubectl (machine os) dir args w).1.etcd ≡ w.etcd
  unfolding pipe_kustomize_to_kubectl
  pipe-keeps dir args w = ground arith

  build-keeps :
      (dir : String) (w : World S O V) → (kustomize_build (machine os) dir w).1.etcd ≡ w.etcd
  unfolding kustomize_build
  build-keeps dir w = ground arith

  module _ (unmarshal : String → Result ItemStatuses) where
    pub statuses-keeps :
        (dir : String) (instance : Instance) (w : World S O V)
        → (load_statuses unmarshal (machine os) dir instance w).2.etcd ≡ w.etcd
    unfolding load_statuses
    statuses-keeps dir instance w =
        ground (arith, pipe-keeps dir ("get" ∷ "-o" ∷ "yaml" ∷ "-f" ∷ "-" ∷ []) w)

    module _ (server : Server (World S O V)) {R : Type 0} (c : Call (World S O V) Instance R) where
      -- What the tools do not change of a call: the state store, the receiver and the Instance.
      pub validate-keeps :
          let d = (validate (machine os) unmarshal server c).1 in
          (d.world.etcd ≡ c.world.etcd) × (d.self ≡ c.self) × (d.shared ≡ c.shared)
      unfolding validate
      validate-keeps = (grind (arith, pipe-keeps, build-keeps), ground arith, ground arith)

      pub refresh-keeps :
          let d = (refresh (machine os) unmarshal server c).1 in
          (d.world.etcd ≡ c.world.etcd) × (d.self ≡ c.self)
      unfolding refresh
      refresh-keeps = (grind (arith, statuses-keeps), ground arith)

      pub withdraw-keeps :
          let d = (withdraw (machine os) unmarshal server c).1 in
          (d.world.etcd ≡ c.world.etcd) × (d.self ≡ c.self) × (d.shared ≡ c.shared)
      unfolding withdraw
      withdraw-keeps = (grind (arith, pipe-keeps), ground arith, ground arith)
