-- ===== src/Git/Engine.antt =====
-- `Engine` of the git adapter: the state store that the server is given.
use hambone.Base.{String, ◌<>◌, [], ◌∷◌, map, split, join, decimal, codes}
use hambone.Go.{Error, plain, error_text, Action, Unit₀, modify, ◌>>◌}
use hambone.Pb.{Instance}
use hambone.Sys.{Os}
use hambone.Helpers.{get_instance_dir_file}
use hambone.State.{Engine}
use hambone.State.Receiver.{World, Receiver}
use hambone.Etcd.Client.{Etcd}
use hambone.Etcd.Engine.{change_dir}
use hambone.Git.Commands.{run_command, git_pull}
use hambone.Git.Getter
use hambone.Git.Getter.{Vars}
use hambone.Git.Updater
use hambone.Git.Updater.{WriterFields}
use hambone.Git.Deleter

-- `Engine`
pub record Settings : Type 0 where
  pub working_dir : String
  pub endpoints_string : String
  pub etcd_locks_git_key : String
  pub branch : String

-- The output is printed as the list of its bytes.
abbrev pub checkout_error : Error → String → Error
checkout_error e output = plain (
    "git checkout failed for unknown reasons: "
    <> (error_text e <> (", [" <> (join " " (map decimal (codes output)) <> "]"))))

module _ {S O : Type 0} (E : Etcd S) (os : Os O) where
  abbrev pub checkout : String → Action O Unit₀
  checkout branch = run_command os checkout_error "git" ("checkout" ∷ branch ∷ [])

  unfoldable pub init_repository : Settings → Action O Unit₀
  unfolding run_command
  init_repository engine = do
    change_dir E os engine.working_dir
    checkout "master"
    git_pull os
    checkout engine.branch

  unfoldable pub init : Settings → Action (World S O Vars) Unit₀
  unfolding init_repository
  init engine = do
    (λ w. let (r, o) = init_repository engine w.os in (r, record w { os = o }))
    modify (λ w. record w {
      vars = record {
        endpoints = split b',' engine.endpoints_string;
        etcd_locks_git_key = engine.etcd_locks_git_key;
      };
    })

  abbrev pub new_writer : Settings → Instance → String → Receiver S WriterFields
  new_writer engine instance instances_dir =
      let (instance_dir, instance_file) = get_instance_dir_file instances_dir instance.name in
      record {
        fields = record {
          instance_dir = instance_dir;
          instance_file = instance_file;
          working_dir = engine.working_dir;
        };
        cleanup_funcs = [];
      }

  abbrev pub engine : Settings → Engine (World S O Vars)
  engine settings = record {
    U = Receiver S WriterFields;
    D = Receiver S WriterFields;
    G = Receiver S Getter.GetterFields;
    T = Receiver S Getter.TemplatesGetterFields;
    init = init settings;
    new_updater = new_writer settings;
    updater = record {
      init = Updater.init E os;
      cancel = Updater.cancel E os;
      commit = Updater.commit E os;
      run_cleanup_funcs = Updater.run_cleanup_funcs;
    };
    new_deleter = new_writer settings;
    deleter = record {
      init = Deleter.init E os;
      cancel = Deleter.cancel E os;
      commit = Deleter.commit E os;
      run_cleanup_funcs = Deleter.run_cleanup_funcs;
    };
    new_getter = λ options dir. record {
      fields = record {
        options = options;
        instances_dir = dir;
        working_dir = settings.working_dir;
      };
      cleanup_funcs = [];
    };
    getter = record { run = Getter.run os; run_cleanup_funcs = Getter.run_cleanup_funcs };
    new_templates_getter = λ dir. record {
      fields = record { templates_dir = dir; working_dir = settings.working_dir };
      cleanup_funcs = [];
    };
    templates_getter = record {
      run = Getter.run_templates os;
      run_cleanup_funcs = Getter.run_templates_cleanup_funcs;
    };
  }
