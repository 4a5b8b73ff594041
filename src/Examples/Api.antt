-- ===== src/Examples/Api.antt =====
-- `pb.InstancesClient` of generated/hambone.pb.go, through which a caller reaches the server.
use hambone.Base.{String, Option, []}
use hambone.Go.{Error, plain, status, Code, Result, ok, err, panicked, Action, Unit₀}
use hambone.Pb.{Instance, OldInstance, InstanceList, GetOptions}
use hambone.Sys.{Os}
use hambone.Instances.Statuses.{ItemStatuses}
use hambone.Instances.Requests.{
  Server, handle_apply, handle_get, handle_delete, handle_get_templates,
}

pub record Api (W : Type 0) : Type 0 where
  pub apply : Instance → Action W Instance
  pub get : GetOptions → Action W InstanceList
  pub delete : Instance → Action W Instance
  pub get_templates : Action W InstanceList

-- `&pb.Instance{}` with some fields set
abbrev pub new_instance : String → String → Option OldInstance → Instance
new_instance name yaml old = record {
  name = name;
  kustomization_yaml = yaml;
  statuses = [];
  statuses_error_message = "";
  old_instance = old;
  files = [];
}

abbrev pub old_instance : String → String → OldInstance
old_instance name yaml = record {
  name = name;
  kustomization_yaml = yaml;
  statuses = [];
  statuses_error_message = "";
  files = [];
}

-- An error as gRPC hands it to the caller: one that is no status gets the code Unknown.
abbrev as_status : Error → Error
as_status (plain message) = status Code.unknown message
as_status (status c message) = status c message

-- The message of a call that returned nil, and else the error.
abbrev pub replied : {W A : Type 0} → Result Unit₀ × A × W → Result A × W
replied (ok _, a, w) = (ok a, w)
replied (err e, _, w) = (err (as_status e), w)
replied (panicked p, _, w) = (panicked p, w)

module _ {W : Type 0} (os : Os W) (unmarshal : String → Result ItemStatuses)
    (server : Server W) where
  -- A client of a server that is reached without a fault of the connection.
  abbrev pub connected : Api W
  connected = record {
    apply = λ instance w. replied (handle_apply os unmarshal server instance w);
    get = λ options w. replied (handle_get os unmarshal server options w);
    delete = λ instance w. replied (handle_delete os unmarshal server instance w);
    get_templates = λ w. replied (handle_get_templates os unmarshal server w);
  }
