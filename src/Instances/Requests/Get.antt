-- ===== src/Instances/Requests/Get.antt =====
-- What a `Get` answers with when the statuses are asked for.
use hambone.Base.{String, ◌≡◌, ◌≢◌, refl, [], ◌∷◌, map, arith}
use hambone.Go.{Error, Result, err}
use hambone.Pb.{InstanceList}
use hambone.Sys.{Os}
use hambone.Instances.Statuses.{ItemStatuses, load_statuses}
use hambone.Instances.Statuses.Filled.{without_statuses, load_statuses-keeps}
use hambone.Instances.Requests.{Server, fill_all, instance_dir_of}

module _ {W : Type 0} (os : Os W) (unmarshal : String → Result ItemStatuses)
    (server : Server W) where
  -- Filling in the statuses of a list never ends in an error, whatever the tools return; and, in
  -- the same order, it changes nothing of the Instances but their statuses and error messages.
  pub fill_all-keeps :
      (list : InstanceList) (w : W)
      → let (r, list', _) = fill_all os unmarshal server list w in
        ((e : Error) → r ≢ err e) × (map without_statuses list' ≡ map without_statuses list)
  unfolding fill_all
  fill_all-keeps [] w = (λ e h. cc, refl)
  fill_all-keeps (instance ∷ list) w =
      let keeps =
        load_statuses-keeps unmarshal os (instance_dir_of os unmarshal server instance) instance
          w in
      let rest =
        fill_all-keeps list
          (load_statuses unmarshal os (instance_dir_of os unmarshal server instance) instance
            w).2 in
      (λ e h. grind (arith, rest.0), grind (arith, keeps, rest.1))
