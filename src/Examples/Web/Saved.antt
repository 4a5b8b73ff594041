-- ===== src/Examples/Web/Saved.antt =====
-- What a form that was saved has done to the Instance behind it.
pub mod Shown
use Prim.Native.Char.{Char, code}
use hambone.Base.{
  String, ◌<>◌, Bool, true, false, ◌≡◌, refl, sym, ap, subst, ◌∙◌, Option, none, some, List, [],
  ◌∷◌, arith, is_code, if◌then◌else◌, remove_returns, Bool-cases, inl, inr,
}
use hambone.Base.Prefix.{has_code}
use hambone.Go.{Result, ok, err, panicked, Action, Unit₀, ◌>>◌, skip, Result-cases}
use hambone.Pb.{Instance, OldInstance}
use hambone.Sys.{Os}
use hambone.State.Receiver.{World, machine}
use hambone.Instances.Statuses.{ItemStatuses}
use hambone.Instances.Requests.{Server, apply, handle_apply}
use hambone.Etcd.Client.{Etcd}
use hambone.Etcd.Adapter.{get_instance_key}
use hambone.Etcd.Engine.{Settings}
use hambone.Etcd.Server.{etcd_server}
use hambone.Etcd.Shared.{IsShared}
use hambone.Etcd.Shared.Swaps.{Swapped, apply-swaps}
use hambone.Examples.Connected.{connected-apply}
use hambone.Examples.Api.{Api, replied, connected, new_instance, old_instance}
use hambone.Examples.Web.{
  Request, Reply, redirect, save_instance, save_handler, save_new_handler, answer_with,
}

-- No carriage return is left.
pub remove_returns-has_code : (s : String) → has_code 13 (remove_returns s) ≡ false
unfolding has_code remove_returns
remove_returns-has_code String.[] = refl
remove_returns-has_code (String.◌∷◌ c s) = elim (Bool-cases (is_code (code c) 13)) [
  | inl e ↦ ground (arith, remove_returns-has_code s)
  | inr e ↦ ground (arith, remove_returns-has_code s)
]

module _ {W : Type 0} where
  -- A save that is answered by a redirect was accepted by the server, and did nothing else.
  pub saved-accepted :
      (api : Api W) (instance : Instance) (f : Unit₀ → List Reply) (target : String) (w : W)
      → (answer_with api (save_instance api instance) f w).0 ≡ redirect target ∷ []
      → ((a : Instance) × ((api.apply instance w).0 ≡ ok a))
        × ((answer_with api (save_instance api instance) f w).1 ≡ (api.apply instance w).1)
  unfolding save_instance
  saved-accepted api instance f target w h = elim (Result-cases (api.apply instance w).0) [
    | inl (a, e) ↦ ((a, e), ground arith)
    | inr (inl (x, e)) ↦ absurd (ground arith)
    | inr (inr (x, e)) ↦ absurd (ground arith)
  ]

module _ {S O : Type 0} (E : Etcd S) (H : IsShared E) (os : Os O) (settings : Settings)
    (unmarshal : String → Result ItemStatuses) (instances_dir templates_dir : String)
    (enable_kustomize_build enable_kubectl : Bool) where
  -- The client of a server over the etcd adapter.
  abbrev client : Api (World S O (List String))
  client =
      connected (machine os) unmarshal (
        etcd_server E os settings instances_dir templates_dir enable_kustomize_build enable_kubectl)

  -- Over an etcd cluster that others write to: if the edit form is answered by a redirect, the new
  -- yaml of the form has been put in place of exactly the old yaml of the form, with nobody's write
  -- between the two, where carriage returns are taken out of both. So what was stored before, and
  -- what is stored now, have none.
  pub save-swaps :
      (r : Request) (name target : String) (w : World S O (List String))
      → (save_handler client r name w).0 ≡ redirect target ∷ []
      → let yaml = remove_returns (r.form_value "kustomizationYaml") in
        let old_yaml = remove_returns (r.form_value "oldKustomizationYaml") in
        Swapped E H os
          (get_instance_key name)
          (some old_yaml)
          (some yaml)
          (save_handler client r name w).1.etcd
        × (has_code 13 old_yaml ≡ false)
        × (has_code 13 yaml ≡ false)
  unfolding save_handler
  save-swaps r name target w h =
      let yaml = remove_returns (r.form_value "kustomizationYaml") in
      let old = old_instance name (remove_returns (r.form_value "oldKustomizationYaml")) in
      let instance = new_instance name yaml (some old) in
      let ((a, accepted), same) = saved-accepted client instance _ target w h in
      let (applied, after) = connected-apply (machine os) unmarshal _ instance w accepted in
      (
        subst
            (λ (v : World S O (List String)).
              Swapped E H os (get_instance_key name) (some old.kustomization_yaml) (some yaml)
                v.etcd)
            (sym (same ∙ ap (λ (p : Result Instance × World S O (List String)). p.1) after))
            (apply-swaps E H os settings unmarshal instances_dir templates_dir
              enable_kustomize_build enable_kubectl instance old w refl applied),
        remove_returns-has_code (r.form_value "oldKustomizationYaml"),
        remove_returns-has_code (r.form_value "kustomizationYaml"),
      )
