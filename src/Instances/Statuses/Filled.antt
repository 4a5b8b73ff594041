-- ===== src/Instances/Statuses/Filled.antt =====
-- Which statuses an Instance gets, and what else filling them in changes.
use hambone.Base.{
  String, Bool-cases, ◌≡◌, sym, ◌∙◌, inl, inr, List, [], ◌∷◌, ◌++◌, map, arith, ◌==◌, if◌then◌else◌,
}
use hambone.Go.{Result}
use hambone.Pb.{Instance, Status}
use hambone.Sys.{Os}
use hambone.Instances.Statuses.{Item, ItemStatuses, status_of, append_statuses, load_statuses}
use mathlib.Core.List.{append_assoc, append-nil}

-- The items that are Deployments.
abbrev pub deployments : List Item → List Item
deployments [] = []
deployments (item ∷ items) =
    if item.kind == "Deployment" then item ∷ deployments items else deployments items

-- Behind what an Instance held comes one status for each Deployment, in the order of the items;
-- items of another kind leave no trace.
append_statuses-eq :
    (statuses : List Status) (items : List Item)
    → append_statuses statuses items ≡ statuses ++ map status_of (deployments items)
unfolding append_statuses
append_statuses-eq statuses [] = sym (append-nil statuses)
append_statuses-eq statuses (item ∷ items) = elim (Bool-cases (item.kind == "Deployment")) [
  | inl e ↦
      rw (e, deployments)
        (append_statuses-eq (statuses ++ (status_of item ∷ [])) items ∙ append_assoc statuses _ _)
  | inr e ↦ rw (e, deployments) (append_statuses-eq statuses items)
]

-- An Instance without what `LoadStatuses` fills in.
abbrev pub without_statuses : Instance → Instance
without_statuses instance = record instance { statuses = []; statuses_error_message = "" }

module _ {W : Type 0} (unmarshal : String → Result ItemStatuses) (os : Os W) where
  -- `LoadStatuses` changes nothing of an Instance but its statuses and their error message.
  pub load_statuses-keeps :
      (instance_dir : String) (instance : Instance) (w : W)
      → without_statuses (load_statuses unmarshal os instance_dir instance w).1
        ≡ without_statuses instance
  unfolding load_statuses
  load_statuses-keeps instance_dir instance w = ground arith
