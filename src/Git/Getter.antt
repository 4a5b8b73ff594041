-- ===== src/Git/Getter.antt =====
-- `gitGetter` and `gitTemplatesGetter`
use hambone.Base.{String, List, ◌==◌, if◌then◌else◌}
use hambone.Go.{Action, Unit₀, gets, modify, ◌>>=◌, ◌>>◌}
use hambone.Pb.{InstanceList, GetOptions}
use hambone.Sys.{Os, FileInfo}
use hambone.State.Method.{Call}
use hambone.State.Page.{page}
use hambone.State.Receiver.{World, Receiver, run_and_forget, on_os}
use hambone.Git.Cleanup.{cleanup_error}
use hambone.Git.Commands.{unknown, wrap, git_pull}
use hambone.Git.Loader.{load_all, load_named}

-- The package variables that `Engine.Init` sets
pub record Vars : Type 0 where
  pub endpoints : List String
  pub etcd_locks_git_key : String

pub record GetterFields : Type 0 where
  pub options : GetOptions
  pub instances_dir : String
  pub working_dir : String

pub record TemplatesGetterFields : Type 0 where
  pub templates_dir : String
  pub working_dir : String

abbrev pub GetMethod : Type 0 → Type 0 → Type 0 → Type 0
GetMethod S O F = Action (Call (World S O Vars) InstanceList (Receiver S F)) Unit₀

module _ {O : Type 0} (os : Os O) where
  -- A request for a name loads that one; else all are loaded, and a page is cut out.
  unfoldable pub load : GetOptions → String → InstanceList → List FileInfo → Action O InstanceList
  load options instances_dir list files =
      if options.name == ""
      then load_all os instances_dir list files >>= (λ found o. (page options found, o))
      else load_named os instances_dir options.name list files

module _ {S O : Type 0} (os : Os O) where
  unfoldable pub run : GetMethod S O GetterFields
  run = do
    fields ← gets (λ c. c.self.fields)
    list ← gets (λ c. c.shared)
    on_os (git_pull os)
    files ← on_os (wrap (unknown "error reading instancesDir: ") (os.read_dir fields.instances_dir))
    loaded ← on_os (load os fields.options fields.instances_dir list files)
    modify (λ c. record c { shared = loaded })

  unfoldable pub run_templates : GetMethod S O TemplatesGetterFields
  run_templates = do
    fields ← gets (λ c. c.self.fields)
    list ← gets (λ c. c.shared)
    on_os (git_pull os)
    files ← on_os (wrap (unknown "error reading templatesDir: ") (os.read_dir fields.templates_dir))
    loaded ← on_os (load_all os fields.templates_dir list files)
    modify (λ c. record c { shared = loaded })

module _ {S O : Type 0} where
  abbrev pub run_cleanup_funcs : GetMethod S O GetterFields
  run_cleanup_funcs = run_and_forget cleanup_error

  abbrev pub run_templates_cleanup_funcs : GetMethod S O TemplatesGetterFields
  run_templates_cleanup_funcs = run_and_forget cleanup_error
