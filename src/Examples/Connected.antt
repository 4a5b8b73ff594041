-- ===== src/Examples/Connected.antt =====
-- What a client that is connected to a server learns of its handlers.
use hambone.Base.{String, false, ◌≡◌, refl}
use hambone.Go.{Result, ok, err, panicked, Unit₀}
use hambone.Pb.{Instance, InstanceList, GetOptions}
use hambone.Sys.{Os}
use hambone.Instances.Statuses.{ItemStatuses}
use hambone.Instances.Requests.{Server, apply, get, delete, handle_apply, handle_get, handle_delete}
use hambone.Examples.Api.{Api, replied, connected}

module _ {W A : Type 0} where
  replied-ok :
      (r : Result Unit₀) (a : A) (w : W) {b : A}
      → (replied (r, a, w)).0 ≡ ok b
      → (r ≡ ok tt) × (replied (r, a, w) ≡ (ok a, w))
  replied-ok (ok _) a w h = (refl, refl)
  replied-ok (err e) a w h = absurd cc
  replied-ok (panicked p) a w h = absurd cc

  replied_ok : (r : Result Unit₀) (a : A) (w : W) → r ≡ ok tt → replied (r, a, w) ≡ (ok a, w)
  replied_ok (ok _) a w h = refl
  replied_ok (err e) a w h = absurd cc
  replied_ok (panicked p) a w h = absurd cc

module _ {W : Type 0} (os : Os W) (unmarshal : String → Result ItemStatuses)
    (server : Server W) where
  abbrev client : Api W
  client = connected os unmarshal server

  -- A call that returned no error: the request did not either, and has answered what it returned.
  pub connected-apply :
      (instance : Instance) (w : W) {a : Instance}
      → (client.apply instance w).0 ≡ ok a
      → ((apply os unmarshal server false instance w).0 ≡ ok tt)
        × (client.apply instance w ≡ (
          ok (apply os unmarshal server false instance w).1,
          (apply os unmarshal server false instance w).2,
        ))
  unfolding handle_apply
  connected-apply instance w h =
      let (r, i, w') = apply os unmarshal server false instance w in replied-ok r i w' h

  -- And one that goes well in the server goes well for the client.
  pub connected-applies :
      (instance : Instance) (w : W)
      → (apply os unmarshal server false instance w).0 ≡ ok tt
      → client.apply instance w ≡ (
        ok (apply os unmarshal server false instance w).1,
        (apply os unmarshal server false instance w).2,
      )
  unfolding handle_apply
  connected-applies instance w h =
      let (r, i, w') = apply os unmarshal server false instance w in replied_ok r i w' h

  pub connected-get :
      (options : GetOptions) (w : W) {list : InstanceList}
      → (client.get options w).0 ≡ ok list
      → ((get os unmarshal server options w).0 ≡ ok tt)
        × (client.get options w
            ≡ (ok (get os unmarshal server options w).1, (get os unmarshal server options w).2))
  unfolding handle_get
  connected-get options w h =
      let (r, list, w') = get os unmarshal server options w in replied-ok r list w' h

  pub connected-delete :
      (instance : Instance) (w : W) {a : Instance}
      → (client.delete instance w).0 ≡ ok a
      → ((delete os unmarshal server instance w).0 ≡ ok tt)
        × (client.delete instance w ≡ (
          ok (delete os unmarshal server instance w).1,
          (delete os unmarshal server instance w).2,
        ))
  unfolding handle_delete
  connected-delete instance w h =
      let (r, i, w') = delete os unmarshal server instance w in replied-ok r i w' h
