-- ===== src/Instances/Exec.antt =====
-- `PipeKustomizeToKubectl` and `KustomizeBuild`, the runs of the two external tools.
pub mod Accepted
use hambone.Base.{String, ◌<>◌, some, List, [], ◌∷◌, ◌==◌, if◌then◌else◌, trim_suffix_newline}
use hambone.Go.{Error, plain, error_text, Action, Unit₀, pure, fail, ◌>>=◌, ◌>>◌, check, always}
use hambone.Sys.{Os, Output}

module _ {W : Type 0} (os : Os W) where
  -- `return text, err`
  abbrev pub give_up : String → Error → Action W Output
  give_up text e = pure (record { text = text; error = some e })

  abbrev pub no_output : String → String
  no_output instance_dir = "No output from `kustomize build " <> (instance_dir <> "`")

  abbrev pub build_error : String → String → Error → Error
  build_error instance_dir stderr e = plain (
      "ERROR running `kustomize build "
      <> (instance_dir <> ("`:\n" <> (trim_suffix_newline stderr <> error_text e))))

  -- The part of the pipe behind the test for empty output.
  abbrev pub pipe_to_kubectl : os.Cmd → String → List String → String → Action W Output
  pipe_to_kubectl kustomize instance_dir args stdout = do
    kubectl ← always (os.command "kubectl" args)
    check (os.stdin_pipe kubectl) (give_up "") (do
      always (λ w. (tt, os.write_stdin kubectl stdout w))
      stderr ← always (os.read_stderr kustomize)
      check (os.wait kustomize) (λ e. give_up stderr (build_error instance_dir stderr e))
          (always (os.output_of kubectl)))

  unfoldable pub pipe_kustomize_to_kubectl : String → List String → Action W Output
  pipe_kustomize_to_kubectl instance_dir args = do
    kustomize ← always (os.command "kustomize" ("build" ∷ instance_dir ∷ []))
    check (os.stdout_pipe kustomize) (give_up "") (
        check (os.stderr_pipe kustomize) (give_up "") (
          check (os.start kustomize) (give_up "") (
            always (os.read_stdout kustomize) >>= λ stdout.
            if stdout == ""
            then give_up (no_output instance_dir) (plain (no_output instance_dir))
            else pipe_to_kubectl kustomize instance_dir args stdout)))

  abbrev pub finish_build : os.Cmd → String → String → Action W Unit₀
  finish_build kustomize instance_dir stdout = do
    stderr ← always (os.read_stderr kustomize)
    check (os.wait kustomize) (λ e. fail (build_error instance_dir stderr e)) (pure tt)

  unfoldable pub kustomize_build : String → Action W Unit₀
  kustomize_build instance_dir = do
    kustomize ← always (os.command "kustomize" ("build" ∷ instance_dir ∷ []))
    os.stdout_pipe kustomize
    os.stderr_pipe kustomize
    os.start kustomize
    stdout ← always (os.read_stdout kustomize)
    (if stdout == ""
        then fail (plain (no_output instance_dir))
        else finish_build kustomize instance_dir stdout)
