-- ===== src/Instances/Exec/Accepted.antt =====
-- What stands behind an answer of the tools without an error.
use hambone.Base.{String, ◌≡◌, ◌≢◌, none, List, [], ◌∷◌, arith}
use hambone.Go.{Result, ok, Unit₀}
use hambone.Sys.{Os, Output}
use hambone.Instances.Exec.{pipe_kustomize_to_kubectl}

module _ {W : Type 0} (os : Os W) (instance_dir : String) (args : List String) (w : W) where
  abbrev pub build : os.Cmd
  build = (os.command "kustomize" ("build" ∷ instance_dir ∷ []) w).0

  -- When kustomize has been started.
  abbrev pub started : Result Unit₀ × W
  started =
      os.start build
        (os.stderr_pipe build
          (os.stdout_pipe build (os.command "kustomize" ("build" ∷ instance_dir ∷ []) w).1).1).1

  abbrev pub printed : String × W
  printed = os.read_stdout build started.1

  abbrev pub kubectl : os.Cmd × W
  kubectl = os.command "kubectl" args printed.1

  -- When kustomize has ended.
  abbrev pub ended : Result Unit₀ × W
  ended =
      os.wait build
        (os.read_stderr build
          (os.write_stdin kubectl.0 printed.0 (os.stdin_pipe kubectl.0 kubectl.1).1)).1

  -- If `PipeKustomizeToKubectl` returns no error, then kustomize was started, printed something and
  -- ended without an error, and the output is that of kubectl, run on what kustomize had printed.
  pub pipe-accepted :
      (output : Output)
      → (pipe_kustomize_to_kubectl os instance_dir args w).0 ≡ ok output
      → output.error ≡ none
      → (started.0 ≡ ok tt)
        × (printed.0 ≢ "")
        × (ended.0 ≡ ok tt)
        × ((os.output_of kubectl.0 ended.1).0 ≡ output)
  unfolding pipe_kustomize_to_kubectl
  pipe-accepted output h clean = (ground arith, ground arith, ground arith, ground arith)
