-- ===== src/Instances/Requests.antt =====
-- The requests: `Instance.Apply`, `Instance.Delete`, `GetRequest.Run`, `GetTemplatesRequest.Run`,
-- and the handlers of pkg/instances/server.go that call them.
pub mod Apply
pub mod Delete
pub mod Get
pub mod Tools
use hambone.Base.{
  String, ◌<>◌, Bool, true, false, not, ◌&&◌, Option, none, some, List, [], ◌∷◌, ◌==◌,
  if◌then◌else◌,
}
use hambone.Go.{
  Error, Code, status, Result, ok, err, panicked, Action, Unit₀, pure, fail, modify, skip, ◌>>=◌,
  ◌>>◌, check, then_deferred, always,
}
use hambone.Pb.{Instance, OldInstance, InstanceList, GetOptions}
use hambone.Sys.{Os, Output}
use hambone.State.{Engine}
use hambone.State.Method.{Call}
use hambone.Instances.Exec.{pipe_kustomize_to_kubectl, kustomize_build}
use hambone.Instances.Statuses.{ItemStatuses, load_statuses}

abbrev pub instance_name_mismatch_error : Error
instance_name_mismatch_error =
    status Code.failed_precondition "Instance.Name and OldInstance.Name do not match"

-- `Server`
pub record Server (W : Type 0) : Type 1 where
  pub instances_dir : String
  pub templates_dir : String
  pub state_store : Engine W
  pub enable_kustomize_build : Bool
  pub enable_kubectl : Bool

abbrev pub names_differ : String → Option OldInstance → Bool
names_differ name none = false
names_differ name (some old) = not (name == old.name)

-- `NamesEquate`
unfoldable pub names_equate : Instance → Option Error
names_equate instance =
    if names_differ instance.name instance.old_instance
    then some instance_name_mismatch_error
    else none

module _ {W P R : Type 0} where
  abbrev pub on_world : {A : Type 0} → Action W A → Action (Call W P R) A
  on_world m c = let (r, w) = m c.world in (r, record c { world = w })

-- The error that stands beside an output, as the error of the call.
abbrev pub error_beside : Output → Result Unit₀
error_beside output = elim output.error [ none ↦ ok tt | some e ↦ err e ]

-- What an error leaves of a call whose error is dropped.
abbrev pub dropped : Result Unit₀ → Result Unit₀
dropped (ok _) = ok tt
dropped (err _) = ok tt
dropped (panicked p) = panicked p

module _ {W : Type 0} (os : Os W) (unmarshal : String → Result ItemStatuses)
    (server : Server W) where
  -- `InstanceDir`, as `NewInstance` sets it
  abbrev pub instance_dir_of : Instance → String
  instance_dir_of instance = server.instances_dir <> ("/" <> instance.name)

  abbrev pub kubectl : {R : Type 0} → List String → Action (Call W Instance R) Unit₀
  kubectl args c =
      on_world
        (pipe_kustomize_to_kubectl os (instance_dir_of c.shared) args >>= λ output w.
          (error_beside output, w))
        c

  abbrev pub fill_statuses : {R : Type 0} → Action (Call W Instance R) Unit₀
  fill_statuses c =
      let (r, instance, w) =
        load_statuses unmarshal os (instance_dir_of c.shared) c.shared c.world in
      (dropped r, record c { world = w; shared = instance })

  -- The `switch` of `Apply`
  unfoldable pub validate : {R : Type 0} → Action (Call W Instance R) Unit₀
  validate c =
      if server.enable_kubectl
      then kubectl ("apply" ∷ "-f" ∷ "-" ∷ []) c
      else if server.enable_kustomize_build
      then on_world (kustomize_build os (instance_dir_of c.shared)) c
      else skip c

  abbrev pub forget_old : {R : Type 0} → Action (Call W Instance R) Unit₀
  forget_old = modify (λ c. record c { shared = record c.shared { old_instance = none } })

  abbrev store : Engine W
  store = server.state_store

  -- `if EnableKubectl` behind the commit
  unfoldable pub refresh : {R : Type 0} → Action (Call W Instance R) Unit₀
  refresh c = if server.enable_kubectl then fill_statuses c else skip c

  -- `Apply` behind the commit
  abbrev pub after_commit : Action (Call W Instance store.U) Unit₀
  after_commit = refresh >> forget_old

  unfoldable pub apply_call : Bool → Action (Call W Instance store.U) Unit₀
  apply_call skip_commit =
      then_deferred store.updater.init store.updater.run_cleanup_funcs
        (check validate store.updater.cancel (store.updater.commit skip_commit >> after_commit))

  unfoldable pub apply : Bool → Instance → W → Result Unit₀ × Instance × W
  unfolding names_equate
  apply skip_commit instance w = elim (names_equate instance) [
    | some e ↦ (err e, instance, w)
    | none ↦
        let (r, c) = apply_call skip_commit (record {
          world = w;
          shared = instance;
          self = store.new_updater instance server.instances_dir;
        }) in
        (r, c.shared, c.world)
  ]

  -- `if EnableKubectl` in `Delete`
  unfoldable pub withdraw : {R : Type 0} → Action (Call W Instance R) Unit₀
  withdraw c = if server.enable_kubectl then kubectl ("delete" ∷ "-f" ∷ "-" ∷ []) c else skip c

  unfoldable pub delete_call : Action (Call W Instance store.D) Unit₀
  delete_call =
      then_deferred store.deleter.init store.deleter.run_cleanup_funcs
        (check withdraw store.deleter.cancel (store.deleter.commit >> forget_old))

  unfoldable pub delete : Instance → W → Result Unit₀ × Instance × W
  unfolding names_equate
  delete instance w = elim (names_equate instance) [
    | some e ↦ (err e, instance, w)
    | none ↦
        let (r, c) = delete_call (record {
          world = w;
          shared = instance;
          self = store.new_deleter instance server.instances_dir;
        }) in
        (r, c.shared, c.world)
  ]

  -- The loop over the Instances found, which fills in their statuses
  unfoldable pub fill_all : InstanceList → W → Result Unit₀ × InstanceList × W
  fill_all [] w = (ok tt, [], w)
  fill_all (instance ∷ list) w =
      let (r, instance', w') = load_statuses unmarshal os (instance_dir_of instance) instance w in
      let (s, list', w'') = fill_all list w' in
      elim (dropped r) [
        | ok _ ↦ (s, instance' ∷ list', w'')
        | err e ↦ (err e, instance' ∷ list, w')
        | panicked p ↦ (panicked p, instance' ∷ list, w')
      ]

  abbrev pub fill_list : {R : Type 0} → Action (Call W InstanceList R) Unit₀
  fill_list c =
      let (r, list, w) = fill_all c.shared c.world in (r, record c { world = w; shared = list })

  -- The list that the request holds afterwards: the one that was filled, if all went well.
  abbrev pub answer :
      {R : Type 0} → Result Unit₀ × Call W InstanceList R → Result Unit₀ × InstanceList × W
  answer (ok _, c) = (ok tt, c.shared, c.world)
  answer (err e, c) = (err e, [], c.world)
  answer (panicked p, c) = (panicked p, [], c.world)

  -- `GetRequest.Run`
  unfoldable pub get : GetOptions → W → Result Unit₀ × InstanceList × W
  get options w = answer (
      then_deferred store.getter.run store.getter.run_cleanup_funcs
        (λ c. if server.enable_kubectl && not options.exclude_statuses then fill_list c else skip c)
        (record { world = w; shared = []; self = store.new_getter options server.instances_dir }))

  -- `GetTemplatesRequest.Run`
  unfoldable pub get_templates : W → Result Unit₀ × InstanceList × W
  get_templates w = answer (
      then_deferred store.templates_getter.run store.templates_getter.run_cleanup_funcs skip
        (record { world = w; shared = []; self = store.new_templates_getter server.templates_dir }))

-- The handlers answer with the Instance or the list, and the error of the request.
module _ {W : Type 0} (os : Os W) (unmarshal : String → Result ItemStatuses)
    (server : Server W) where
  unfoldable pub handle_apply : Instance → W → Result Unit₀ × Instance × W
  unfolding apply
  handle_apply instance w = apply os unmarshal server false instance w

  unfoldable pub handle_get : GetOptions → W → Result Unit₀ × InstanceList × W
  unfolding get
  handle_get options w = get os unmarshal server options w

  unfoldable pub handle_delete : Instance → W → Result Unit₀ × Instance × W
  unfolding delete
  handle_delete instance w = delete os unmarshal server instance w

  unfoldable pub handle_get_templates : W → Result Unit₀ × InstanceList × W
  unfolding get_templates
  handle_get_templates w = get_templates os unmarshal server w
