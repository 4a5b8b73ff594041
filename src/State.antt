-- ===== src/State.antt =====
-- pkg/state/state.go: the interfaces through which the server reaches a state store.
pub mod Cleanup
pub mod Page
pub mod Method
pub mod Receiver
pub mod Contract
use hambone.Base.{String, Bool, List, [], ◌∷◌, ◌++◌}
use hambone.Go.{Error, Code, status, Result, ok, Action, Unit₀, gets, modify}
use hambone.State.Method.{Call}
use hambone.Pb.{Instance, InstanceList, GetOptions}

abbrev pub instance_no_exist_error : Error
instance_no_exist_error =
    status Code.failed_precondition "OldInstance was passed, but there's no existing Instance"

abbrev pub old_instance_differs_error : Error
old_instance_differs_error =
    status Code.failed_precondition "OldInstance differs from existing Instance"

pub record Updater (W R : Type 0) : Type 0 where
  pub init : Action (Call W Instance R) Unit₀
  pub cancel : Error → Action (Call W Instance R) Unit₀
  pub commit : Bool → Action (Call W Instance R) Unit₀
  pub run_cleanup_funcs : Action (Call W Instance R) Unit₀

pub record Deleter (W R : Type 0) : Type 0 where
  pub init : Action (Call W Instance R) Unit₀
  pub cancel : Error → Action (Call W Instance R) Unit₀
  pub commit : Action (Call W Instance R) Unit₀
  pub run_cleanup_funcs : Action (Call W Instance R) Unit₀

-- `Getter` and `TemplatesGetter` have the same two methods.
pub record Getter (W R : Type 0) : Type 0 where
  pub run : Action (Call W InstanceList R) Unit₀
  pub run_cleanup_funcs : Action (Call W InstanceList R) Unit₀

-- `Engine`: each `New…` gives a receiver, and its methods stand beside it.
pub record Engine (W : Type 0) : Type 1 where
  pub U : Type 0
  pub D : Type 0
  pub G : Type 0
  pub T : Type 0
  pub init : Action W Unit₀
  pub new_updater : Instance → String → U
  pub updater : Updater W U
  pub new_deleter : Instance → String → D
  pub deleter : Deleter W D
  pub new_getter : GetOptions → String → G
  pub getter : Getter W G
  pub new_templates_getter : String → T
  pub templates_getter : Getter W T
