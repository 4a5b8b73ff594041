-- ===== src/Examples/Client.antt =====
-- examples/client.go: one run of a command-line client, by the flags `action` and `name`.
pub mod Many
pub mod Atomic
use hambone.Base.{ℕ, zero, suc, String, ◌<>◌, true, false, none, some, ◌==◌, if◌then◌else◌, decimal}
use hambone.Base.Int.{pos}
use hambone.Go.{error_text, Result, ok, err, panicked, Action, Unit₀, pure, skip, ◌>>=◌, ◌>>◌}
use hambone.Pb.{Instance, InstanceList, GetOptions}
use hambone.Examples.Api.{Api, new_instance, old_instance}

-- The two verbs of the format, `name` and `dnsName`, stand between these texts.
abbrev pub before_name : String
before_name =
    "---\napiVersion: kustomize.config.k8s.io/v1beta1\nkind: Kustomization\n\nnamePrefix: "

abbrev pub before_dns_name : String
before_dns_name =
    "-\n\nresources:\n- ../../base\n\nconfigMapGenerator:\n- name: my-configmap\n  namespace: default\n  behavior: create\n  literals:\n  - APP_URL=https://"

abbrev pub behind_dns_name : String
behind_dns_name = ".example.com\n  - SOME=thing\n\n"

unfoldable pub generate_kustomization_yaml : String → String → String
generate_kustomization_yaml name dns_name =
    before_name <> (name <> (before_dns_name <> (dns_name <> behind_dns_name)))

-- The Instance of one round of `applyManyInstances`.
unfoldable pub many_name : ℕ → String
many_name i = "my-client-" <> decimal i

abbrev pub applied_instance : String → Instance
applied_instance name = new_instance name (generate_kustomization_yaml name name) none

abbrev pub get_options : String → GetOptions
get_options name = record { name = name; start = pos 0; stop = pos 0; exclude_statuses = false }

-- What `main` prints.
pub data Printed : Type 0 where
  applied_many : Printed
  applied updated deleted atomically_deleted : Instance → Printed
  got_instance got_instances : InstanceList → Printed
  unrecognized : Printed

module _ {W : Type 0} (api : Api W) where
  -- `n` rounds from `i` on
  unfoldable pub apply_rounds : ℕ → ℕ → Action W Unit₀
  apply_rounds zero i = skip
  apply_rounds (suc n) i = api.apply (applied_instance (many_name i)) >> apply_rounds n (suc i)

  unfoldable pub apply_many_instances : Action W Unit₀
  unfolding apply_rounds
  apply_many_instances = apply_rounds 700 0

  unfoldable pub apply_instance : String → Action W Instance
  apply_instance name = api.apply (applied_instance name)

  unfoldable pub update_instance : String → Action W Instance
  update_instance name = api.apply (
      new_instance name (generate_kustomization_yaml name name)
        (some (old_instance name (generate_kustomization_yaml name "other-name"))))

  unfoldable pub get_instance : String → Action W InstanceList
  get_instance name = api.get (get_options name)

  unfoldable pub get_instances : Action W InstanceList
  get_instances = api.get (record (get_options "") { exclude_statuses = true })

  unfoldable pub delete_instance : String → Action W Instance
  delete_instance name = api.delete (new_instance name "" none)

  unfoldable pub atomic_delete_instance : String → Action W Instance
  atomic_delete_instance name =
      api.delete
        (new_instance name "" (some (old_instance name (generate_kustomization_yaml name name))))

  -- `if err != nil { panic(err) }`, and else what is printed.
  abbrev pub print_or_panic : {A : Type 0} → Action W A → (A → Printed) → Action W Printed
  print_or_panic m printed w =
      let (r, w') = m w in
      elim r [
        | ok a ↦ (ok (printed a), w')
        | err e ↦ (panicked (error_text e), w')
        | panicked p ↦ (panicked p, w')
      ]

  -- `main`, when it is connected
  unfoldable pub main : String → String → Action W Printed
  main action name =
      if action == "applyManyInstances"
      then print_or_panic apply_many_instances (λ _. applied_many)
      else if action == "applyInstance"
      then print_or_panic (apply_instance name) applied
      else if action == "updateInstance"
      then print_or_panic (update_instance name) updated
      else if action == "getInstance"
      then print_or_panic (get_instance name) got_instance
      else if action == "getInstances"
      then print_or_panic get_instances got_instances
      else if action == "deleteInstance"
      then print_or_panic (delete_instance name) deleted
      else if action == "atomicDeleteInstance"
      then print_or_panic (atomic_delete_instance name) atomically_deleted
      else pure unrecognized
