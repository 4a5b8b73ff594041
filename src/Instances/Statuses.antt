-- ===== src/Instances/Statuses.antt =====
-- `LoadStatuses`: the state of the Deployments of an Instance, read from Kubernetes.
pub mod Filled
use hambone.Base.{
  String, Bool, true, false, Option, none, some, List, [], ◌∷◌, ◌++◌, ◌==◌, if◌then◌else◌,
}
use hambone.Base.Int.{ℤ}
use hambone.Go.{
  Error, Result, ok, err, panicked, Action, Unit₀, pure, fail, modify, panic, ◌>>=◌, ◌>>◌,
}
use hambone.Pb.{Instance, Status, deployment}
use hambone.Sys.{Os, Output}
use hambone.State.Method.{Call}
use hambone.Instances.Exec.{pipe_kustomize_to_kubectl}

pub record Metadata : Type 0 where
  pub name : String
  pub namespace : String

pub record ItemStatus : Type 0 where
  pub available_replicas : ℤ
  pub ready_replicas : ℤ
  pub desired_replicas : ℤ
  pub updated_replicas : ℤ

pub record Item : Type 0 where
  pub kind : String
  pub metadata : Metadata
  pub labels : List (String × String)
  pub status : ItemStatus

-- `ItemStatuses`
abbrev pub ItemStatuses : Type 0
ItemStatuses = List Item

abbrev pub status_of : Item → Status
status_of item = deployment (record {
  name = item.metadata.name;
  desired = item.status.desired_replicas;
  current = item.status.ready_replicas;
  up_to_date = item.status.updated_replicas;
  available = item.status.available_replicas;
})

-- The loop over the items, with the statuses so far.
unfoldable pub append_statuses : List Status → List Item → List Status
append_statuses statuses [] = statuses
append_statuses statuses (item ∷ items) =
    append_statuses
      (if item.kind == "Deployment" then statuses ++ (status_of item ∷ []) else statuses) items

abbrev pub read_items : Instance → Output → Result ItemStatuses → Result Unit₀ × Instance
read_items instance output (ok items) =
    (ok tt, record instance { statuses = append_statuses instance.statuses items })
read_items instance output (err e) =
    (err e, record instance { statuses_error_message = output.text })
read_items instance output (panicked p) = (panicked p, instance)

-- `unmarshal` is `yaml.Unmarshal` into `ItemStatuses`.
module _ (unmarshal : String → Result ItemStatuses) where
  abbrev pub fill_in : Instance → Output → Option Error → Result Unit₀ × Instance
  fill_in instance output (some e) =
      (err e, record instance { statuses_error_message = output.text })
  fill_in instance output none = read_items instance output (unmarshal output.text)

  -- The error is returned, and every caller drops it.
  unfoldable pub load_statuses :
      {W : Type 0} → Os W → String → Instance → W → Result Unit₀ × Instance × W
  load_statuses os instance_dir instance w =
      let (r, w') =
        pipe_kustomize_to_kubectl os instance_dir ("get" ∷ "-o" ∷ "yaml" ∷ "-f" ∷ "-" ∷ []) w in
      elim r [
        | ok output ↦ let (s, i) = fill_in instance output output.error in (s, i, w')
        | err e ↦ (err e, instance, w')
        | panicked p ↦ (panicked p, instance, w')
      ]
