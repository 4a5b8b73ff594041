-- ===== src/Examples/Web/Saved/Shown.antt =====
-- What the redirect behind a save leads to.
use Prim.Native.Char.{code}
use hambone.Base.{
  is_code, ◌&&◌, ◌||◌, String, ◌<>◌, Bool, true, false, ◌≡◌, ◌≢◌, refl, sym, ap, ◌∙◌, Option, none,
  some, List, [], ◌∷◌, arith, remove_returns, inl, inr, String-discrete,
}
use hambone.Base.Prefix.{glue-eq, strip_prefix}
use hambone.Go.{Error, Result, ok, Unit₀, Result-cases}
use hambone.Pb.{Instance, InstanceList}
use hambone.Sys.{Os}
use hambone.State.Receiver.{World, machine}
use hambone.Instances.Statuses.{ItemStatuses}
use hambone.Instances.Requests.{Server, apply, get}
use hambone.Etcd.Client.{Etcd}
use hambone.Etcd.Lawful.{IsLawful}
use hambone.Etcd.Engine.{Settings}
use hambone.Etcd.Server.{etcd_server}
use hambone.Etcd.ReadBack.{get-applied}
use hambone.Etcd.Getter.Run.{instance_named}
use hambone.Examples.Api.{Api, connected, new_instance, old_instance}
use hambone.Examples.Web.{
  Request, Page, Reply, redirect, not_found, NamedHandler, options_named, save_instance,
  load_instance, execute_template, save_handler, save_new_handler, view_handler, answer_with,
}
use hambone.Examples.Web.Routes.{
  is_name_char, serve, is_name, match_name, match_verb, validation_handler,
}
use hambone.Examples.Web.Names.{path_of, is_name-IsStorageKey}
use hambone.Examples.Web.Reached.{serve-reaches}
use hambone.Examples.Connected.{connected-apply, connected-get}
use hambone.Examples.Web.Saved.{saved-accepted}

match_name-none : (name : String) → is_name name ≡ false → match_name (path_of "view" name) ≡ none
unfolding match_name match_verb strip_prefix
match_name-none name h = ground arith

-- `[a-zA-Z0-9_\-]*`. The target of a redirect that ends in such a name has none of the signs that
-- `http.Redirect` and the reader of a URL treat otherwise: it is the path of the next request.
unfoldable pub all_word_chars : String → Bool
all_word_chars String.[] = true
all_word_chars (String.◌∷◌ c s) = (is_name_char (code c) || is_code (code c) 95) && all_word_chars s

module _ {W : Type 0} (api : Api W) where
  redirect-target :
      (instance : Instance) (url target : String) (w : W)
      → (answer_with api (save_instance api instance) (λ _. redirect url ∷ []) w).0
        ≡ redirect target ∷ []
      → target ≡ url
  redirect-target instance url target w h = elim (Result-cases (save_instance api instance w).0) [
    | inl (a, e) ↦ ground arith
    | inr (inl (x, e)) ↦ absurd (ground arith)
    | inr (inr (x, e)) ↦ absurd (ground arith)
  ]

  loaded-got :
      (name : String) (w : W) {i : Instance}
      → (load_instance api name w).0 ≡ ok i
      → (list : InstanceList) × ((api.get (options_named name) w).0 ≡ ok list)
  unfolding load_instance
  loaded-got name w h = elim (Result-cases (api.get (options_named name) w).0) [
    | inl (list, e) ↦ (list, e)
    | inr (inl (x, e)) ↦ absurd (ground arith)
    | inr (inr (x, e)) ↦ absurd (ground arith)
  ]

  view-one :
      (execute : String → Page → Option Error) (r : Request) (name : String) (i : Instance) (w : W)
      → (api.get (options_named name) w).0 ≡ ok (i ∷ [])
      → (view_handler api execute r name w).0 ≡ execute_template api execute "view" i
  unfolding view_handler load_instance
  view-one execute r name i w e = ground arith

  -- A name of letters, digits, dashes and underscores that has an underscore, or is empty, is saved by
  -- the form for a new Instance, but no path with that name is let through to the form that shows
  -- it: whenever the save is answered by a redirect to `target`, `validationHandler` answers a
  -- request for `target` with NotFound.
  pub new-not_shown :
      (r next : Request) (target : String) (fn : NamedHandler (W))
      → (w v : W) → all_word_chars (r.form_value "name") ≡ true
      → is_name (r.form_value "name") ≡ false
      → (save_new_handler api r w).0 ≡ redirect target ∷ []
      → next.path ≡ target
      → validation_handler fn next v ≡ (not_found ∷ [], v)
  unfolding save_new_handler validation_handler
  new-not_shown r next target fn w v word bad answered followed =
      let name = r.form_value "name" in
      let instance = new_instance name (remove_returns (r.form_value "kustomizationYaml")) none in
      let path =
        followed
        ∙ (redirect-target instance ("/instance/view/" <> name) target w answered
            ∙ sym (glue-eq "/instance/view/" name)) in
      let lost = ap match_name path ∙ match_name-none name bad in ground (arith, lost)

pub is_name-ne-empty : (name : String) → is_name name ≡ true → name ≢ ""
unfolding is_name String-discrete
is_name-ne-empty name h e = absurd (ground (arith, ap is_name e))

module _ {S O : Type 0} (E : Etcd S) (L : IsLawful E) (os : Os O) (settings : Settings)
    (unmarshal : String → Result ItemStatuses) (instances_dir templates_dir : String)
    (enable_kustomize_build : Bool) (execute : String → Page → Option Error) where
  abbrev server : Server (World S O (List String))
  server = etcd_server E os settings instances_dir templates_dir enable_kustomize_build false

  abbrev client : Api (World S O (List String))
  client = connected (machine os) unmarshal server

  applied-viewed :
      (next : Request) (instance : Instance) (w v : World S O (List String)) {i : Instance}
      → is_name instance.name ≡ true
      → (apply (machine os) unmarshal server false instance w).0 ≡ ok tt
      → v ≡ (apply (machine os) unmarshal server false instance w).2
      → (load_instance client instance.name v).0 ≡ ok i
      → (view_handler client execute next instance.name v).0
        ≡ execute_template client execute "view"
            (instance_named instance.name instance.kustomization_yaml)
  applied-viewed next instance w v h applied same loaded =
      let name = instance.name in
      let (_, got) = loaded-got client name v loaded in
      let (answered, reply) =
        connected-get (machine os) unmarshal server (options_named name) v got in
      let asked : World S O (List String) → Result Unit₀ × InstanceList × World S O (List String) =
        get (machine os) unmarshal server (options_named name) in
      let found =
        get-applied E L os settings unmarshal instances_dir templates_dir enable_kustomize_build
          false instance (options_named name) w (is_name-IsStorageKey name h) refl
          (is_name-ne-empty name h) refl applied (ap (λ u. (asked u).0) (sym same) ∙ answered) in
      view-one client execute next name (instance_named name instance.kustomization_yaml) v (
        ap (λ (p : Result InstanceList × World S O (List String)). p.0) reply
        ∙ ap ok (ap (λ u. (asked u).1) same ∙ found))

  -- Over a lawful etcd cluster and a server without kubectl: if a request to save the edit form of
  -- a name that is let through is answered by a redirect, and the Instance can be loaded then, the
  -- request that follows the redirect is answered by the template for viewing, executed with this
  -- name and the yaml of the form, less its carriage returns.
  pub saved-shown :
      (r next : Request) (name target : String) (w : World S O (List String)) {i : Instance}
      → is_name name ≡ true
      → r.path ≡ path_of "save" name
      → (serve client execute r w).0 ≡ redirect target ∷ []
      → next.path ≡ target
      → let after = (serve client execute r w).1 in
        (load_instance client name after).0 ≡ ok i
        → (serve client execute next after).0
          ≡ execute_template client execute "view"
              (instance_named name (remove_returns (r.form_value "kustomizationYaml")))
  unfolding save_handler
  saved-shown r next name target w h saved answered followed loaded =
      let yaml = remove_returns (r.form_value "kustomizationYaml") in
      let old = old_instance name (remove_returns (r.form_value "oldKustomizationYaml")) in
      let instance = new_instance name yaml (some old) in
      let (_, _, _, reached) = serve-reaches client execute r name w h in
      let here = reached saved in
      let redirected =
        ap (λ (p : List Reply × World S O (List String)). p.0) (sym here) ∙ answered in
      let ((_, accepted), same) = saved-accepted client instance _ target w redirected in
      let (applied, state) = connected-apply (machine os) unmarshal server instance w accepted in
      let v = (serve client execute r w).1 in
      let after =
        ap (λ (p : List Reply × World S O (List String)). p.1) here
        ∙ (same ∙ ap (λ (p : Result Instance × World S O (List String)). p.1) state) in
      let view_path =
        followed
        ∙ (redirect-target client instance ("/instance/view/" <> name) target w redirected
            ∙ sym (glue-eq "/instance/view/" name)) in
      let (_, viewed, _, _) = serve-reaches client execute next name v h in
      ap (λ (p : List Reply × World S O (List String)). p.0) (viewed view_path)
      ∙ applied-viewed next instance w v h applied after loaded
