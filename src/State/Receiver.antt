-- ===== src/State/Receiver.antt =====
-- The receivers of the adapters, and the calls that they make on the cluster and the machine.
use hambone.Base.{String, List, [], ◌∷◌, ◌++◌}
use hambone.Go.{Error, Action, Unit₀, modify}
use hambone.Sys.{Os}
use hambone.State.Method.{Call}
use hambone.State.Cleanup.{Cleanup, run_cleanup_funcs}

-- The cluster, the machine, and the package variable `endpoints`.
pub record World (S O V : Type 0) : Type 0 where
  pub etcd : S
  pub os : O
  pub vars : V

-- A receiver: its own fields, and `cleanupFuncs`.
pub record Receiver (S F : Type 0) : Type 0 where
  pub fields : F
  pub cleanup_funcs : List (Cleanup S)

module _ {S O V P F : Type 0} where
  abbrev pub on_etcd : {A : Type 0} → Action S A → Action (Call (World S O V) P (Receiver S F)) A
  on_etcd m c = let (r, s) = m c.world.etcd in (r, record c { world = record c.world { etcd = s } })

  abbrev pub on_os : {A : Type 0} → Action O A → Action (Call (World S O V) P (Receiver S F)) A
  on_os m c = let (r, o) = m c.world.os in (r, record c { world = record c.world { os = o } })

  -- `cleanupFuncs = append(cleanupFuncs, f)`
  abbrev pub register : String → Action S Unit₀ → Action (Call (World S O V) P (Receiver S F)) Unit₀
  register name f = modify λ c. record c {
    self = record c.self {
      cleanup_funcs = c.self.cleanup_funcs ++ (record { name = name; call = f } ∷ []);
    };
  }

  -- The method `RunCleanupFuncs`: the functions run, and the field becomes nil.
  unfoldable pub run_and_forget :
      (String → Error) → Action (Call (World S O V) P (Receiver S F)) Unit₀
  run_and_forget wrap c =
      let (r, s) = run_cleanup_funcs wrap c.self.cleanup_funcs c.world.etcd in
      (
        r,
        record c {
          world = record c.world { etcd = s };
          self = record c.self { cleanup_funcs = [] };
        },
      )

-- The machine, as a part of the world.
module _ {S O V : Type 0} where
  abbrev on_machine : {A : Type 0} → Action O A → Action (World S O V) A
  on_machine m w = let (r, o) = m w.os in (r, record w { os = o })

  abbrev on_machine_always : {A : Type 0} → (O → A × O) → World S O V → A × World S O V
  on_machine_always m w = let (a, o) = m w.os in (a, record w { os = o })

  abbrev pub machine : Os O → Os (World S O V)
  machine os = record {
    Cmd = os.Cmd;
    Handle = os.Handle;
    chdir = λ dir. on_machine (os.chdir dir);
    not_exist = λ path. on_machine (os.not_exist path);
    read_file = λ path. on_machine (os.read_file path);
    write_file = λ path contents. on_machine (os.write_file path contents);
    mkdir_all = λ path. on_machine (os.mkdir_all path);
    read_dir = λ path. on_machine (os.read_dir path);
    walk = λ path. on_machine (os.walk path);
    open_file = λ path. on_machine (os.open_file path);
    read_dir_names = λ file n. on_machine (os.read_dir_names file n);
    close_file = λ file. on_machine (os.close_file file);
    combined_output = λ cmd args. on_machine_always (os.combined_output cmd args);
    command = λ cmd args. on_machine_always (os.command cmd args);
    stdout_pipe = λ cmd. on_machine (os.stdout_pipe cmd);
    stderr_pipe = λ cmd. on_machine (os.stderr_pipe cmd);
    stdin_pipe = λ cmd. on_machine (os.stdin_pipe cmd);
    start = λ cmd. on_machine (os.start cmd);
    read_stdout = λ cmd. on_machine_always (os.read_stdout cmd);
    read_stderr = λ cmd. on_machine_always (os.read_stderr cmd);
    write_stdin = λ cmd text w. record w { os = os.write_stdin cmd text w.os };
    wait = λ cmd. on_machine (os.wait cmd);
    output_of = λ cmd. on_machine_always (os.output_of cmd);
  }
