-- ===== src/Etcd/Engine.antt =====
-- `Engine` of the etcd adapter: the state store that the server is given.
use hambone.Base.{String, none, List, [], split}
use hambone.Go.{Code, status, error_text, Action, Unit₀, modify, rescue, fail, ◌>>◌}
use hambone.Base.{◌<>◌}
use hambone.Pb.{Instance, GetOptions}
use hambone.Sys.{Os}
use hambone.Helpers.{get_instance_dir_file}
use hambone.State.{Engine}
use hambone.State.Receiver.{World, Receiver}
use hambone.Etcd.Client.{Etcd}
use hambone.Etcd.Getter
use hambone.Etcd.Updater
use hambone.Etcd.Deleter

-- `Engine`
pub record Settings : Type 0 where
  pub working_dir : String
  pub endpoints_string : String

module _ {S O : Type 0} (E : Etcd S) (os : Os O) where
  -- `os.Chdir`, with its error dressed up. Both adapters begin so.
  unfoldable pub change_dir : String → Action O Unit₀
  change_dir dir =
      rescue (os.chdir dir)
        λ e. fail (status Code.unknown ("error changing directory: " <> error_text e))

  unfoldable pub init : Settings → Action (World S O (List String)) Unit₀
  unfolding change_dir
  init engine = do
    (λ w. let (r, o) = change_dir engine.working_dir w.os in (r, record w { os = o }))
    modify (λ w. record w { vars = split b',' engine.endpoints_string })

  abbrev pub new_writer : Instance → String → Receiver S (Updater.WriterFields E.Client)
  new_writer instance instances_dir =
      let (instance_dir, instance_file) = get_instance_dir_file instances_dir instance.name in
      record {
        fields = record {
          instance_dir = instance_dir;
          instance_file = instance_file;
          client = none;
        };
        cleanup_funcs = [];
      }

  abbrev pub new_getter : GetOptions → String → Receiver S Getter.GetterFields
  new_getter options instances_dir = record {
    fields = record { options = options; instances_dir = instances_dir };
    cleanup_funcs = [];
  }

  abbrev pub engine : Settings → Engine (World S O (List String))
  engine settings = record {
    U = Receiver S (Updater.WriterFields E.Client);
    D = Receiver S (Updater.WriterFields E.Client);
    G = Receiver S Getter.GetterFields;
    T = Receiver S Getter.TemplatesGetterFields;
    init = init settings;
    new_updater = new_writer;
    updater = record {
      init = Updater.init E os;
      cancel = Updater.cancel E os;
      commit = Updater.commit E os;
      run_cleanup_funcs = Updater.run_cleanup_funcs E os;
    };
    new_deleter = new_writer;
    deleter = record {
      init = Deleter.init E os;
      cancel = Deleter.cancel E os;
      commit = Deleter.commit E os;
      run_cleanup_funcs = Deleter.run_cleanup_funcs E os;
    };
    new_getter = new_getter;
    getter = record { run = Getter.run E; run_cleanup_funcs = Getter.run_cleanup_funcs E };
    new_templates_getter =
        λ dir. record { fields = record { templates_dir = dir }; cleanup_funcs = [] };
    templates_getter = record {
      run = Getter.run_templates;
      run_cleanup_funcs = Getter.run_templates_cleanup_funcs;
    };
  }
