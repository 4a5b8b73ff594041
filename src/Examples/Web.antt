-- ===== src/Examples/Web.antt =====
-- examples/webServer/webServer.go: a form for the Instances over HTTP. The templates stand in other
-- files, and `execute` is what executing one returns.
pub mod Routes
pub mod Names
pub mod Reached
pub mod Saved
use hambone.Base.{
  String, ◌<>◌, false, Option, none, some, List, [], ◌∷◌, ◌==◌, if◌then◌else◌, remove_returns,
}
use hambone.Base.Int.{pos}
use hambone.Go.{
  Error, plain, error_text, Result, ok, err, panicked, Action, Unit₀, pure, fail, skip, ◌>>=◌, ◌>>◌,
}
use hambone.Pb.{Instance, OldInstance, InstanceList, GetOptions}
use hambone.Examples.Api.{Api, new_instance, old_instance}

-- What the handlers read of an `http.Request`: `URL.Path` and `FormValue`.
pub record Request : Type 0 where
  pub path : String
  pub form_value : String → String

-- What a template is executed with.
pub data Page : Type 0 where
  one : Instance → Page
  many : InstanceList → Page

-- What is written to an `http.ResponseWriter`: a template by its name; `http.Error` with
-- StatusInternalServerError; `http.Redirect` with StatusFound to a path, and the mux's own with
-- StatusMovedPermanently; `http.NotFound`; and what `net/http` makes of a panic.
pub data Reply : Type 0 where
  page : String → Page → Reply
  error : String → Reply
  redirect : String → Reply
  moved : String → Reply
  not_found : Reply
  aborted : String → Reply

abbrev pub Handler : Type 0 → Type 0
Handler W = Request → W → List Reply × W

-- A handler that is given the name in the path.
abbrev pub NamedHandler : Type 0 → Type 0
NamedHandler W = Request → String → W → List Reply × W

abbrev pub options_named : String → GetOptions
options_named name = record { name = name; start = pos 0; stop = pos 0; exclude_statuses = false }

-- The loop of `loadTemplate`. Without a match the Instance is empty.
unfoldable pub template_named : String → InstanceList → Instance
template_named name [] = new_instance "" "" none
template_named name (template ∷ list) =
    let rest = template_named name list in if template.name == name then template else rest

module _ {W : Type 0} (api : Api W) where
  unfoldable pub save_instance : Instance → Action W Unit₀
  save_instance instance = api.apply instance >> skip

  abbrev pub first_found : InstanceList → Action W Instance
  first_found [] = fail (plain "Not Found")
  first_found (instance ∷ list) = pure instance

  unfoldable pub load_instance : String → Action W Instance
  load_instance name = api.get (options_named name) >>= first_found

  unfoldable pub load_template : String → Action W Instance
  unfolding template_named
  load_template name = do list ← api.get_templates; pure (template_named name list)

  unfoldable pub load_instances : Action W InstanceList
  load_instances = api.get (options_named "")

  -- `if err != nil { http.Error(...); return }`, and else the rest of the handler.
  abbrev pub answer_with : {A : Type 0} → Action W A → (A → List Reply) → W → List Reply × W
  answer_with m rest w =
      let (r, w') = m w in
      (
        elim r [
          | ok a ↦ rest a
          | err e ↦ Reply.error (error_text e) ∷ []
          | panicked p ↦ aborted p ∷ []
        ],
        w',
      )

  -- A redirect is given as the text that `http.Redirect` is called with. For names of letters, digits,
  -- dashes and underscores that is the path that is asked for next; for others it is cleaned, and ?,
  -- # and % in it are read as parts of a URL.
  unfoldable pub save_handler : NamedHandler W
  unfolding save_instance
  save_handler r name =
      let yaml = remove_returns (r.form_value "kustomizationYaml") in
      let old_yaml = remove_returns (r.form_value "oldKustomizationYaml") in
      answer_with (save_instance (new_instance name yaml (some (old_instance name old_yaml))))
        λ _. redirect ("/instance/view/" <> name) ∷ []

  unfoldable pub save_new_handler : Handler W
  unfolding save_instance
  save_new_handler r =
      let yaml = remove_returns (r.form_value "kustomizationYaml") in
      let name = r.form_value "name" in
      answer_with (save_instance (new_instance name yaml none))
        λ _. redirect ("/instance/view/" <> name) ∷ []

  module _ (execute : String → Page → Option Error) where
    abbrev execute_page : String → Page → List Reply
    execute_page file data_of =
        page file data_of
        ∷ elim (execute file data_of) [ none ↦ [] | some e ↦ Reply.error (error_text e) ∷ [] ]

    unfoldable pub execute_template : String → Instance → List Reply
    execute_template tmpl instance = execute_page (tmpl <> ".html") (one instance)

    unfoldable pub view_all_handler : Handler W
    unfolding load_instances
    view_all_handler r =
        answer_with load_instances (λ list. execute_page "viewall.html" (many list))

    unfoldable pub view_handler : NamedHandler W
    unfolding load_instance execute_template
    view_handler r name = answer_with (load_instance name) (execute_template "view")

    unfoldable pub edit_handler : NamedHandler W
    unfolding load_instance execute_template
    edit_handler r name = answer_with (load_instance name) (execute_template "edit")

    unfoldable pub new_handler : NamedHandler W
    unfolding load_template execute_template
    new_handler r name = answer_with (load_template name) (execute_template "new")
