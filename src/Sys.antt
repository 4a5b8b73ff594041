-- ===== src/Sys.antt =====
-- What the program asks of the operating system: files (`os`, `io/ioutil`, `filepath.Walk`) and
-- child processes (`os/exec`). The state behind these calls is the parameter `O`.
use hambone.Base.{ℕ, String, Bool, Option, List}
use hambone.Go.{Error, Action, Unit₀}

-- `os.FileInfo`
pub record FileInfo : Type 0 where
  pub name : String
  pub is_dir : Bool

-- One call of the function given to `filepath.Walk`: a path, and its description or an error.
pub data Visit : Type 0 where
  found : (path : String) (is_dir : Bool) → Visit
  unreadable : (path : String) → Error → Visit

-- What `CombinedOutput` returns.
pub record Output : Type 0 where
  pub text : String
  pub error : Option Error

pub record Os (O : Type 0) : Type 1 where
  pub Cmd : Type 0
  pub Handle : Type 0
  pub chdir : String → Action O Unit₀
  pub not_exist : String → Action O Bool
  pub read_file : String → Action O String
  pub write_file : String → String → Action O Unit₀
  pub mkdir_all : String → Action O Unit₀
  pub read_dir : String → Action O (List FileInfo)
  pub walk : String → Action O (List Visit)
  pub open_file : String → Action O Handle
  -- `Readdirnames`; `none` is `io.EOF`
  pub read_dir_names : Handle → ℕ → Action O (Option (List String))
  pub close_file : Handle → Action O Unit₀
  pub combined_output : String → List String → O → Output × O
  pub command : String → List String → O → Cmd × O
  pub stdout_pipe : Cmd → Action O Unit₀
  pub stderr_pipe : Cmd → Action O Unit₀
  pub stdin_pipe : Cmd → Action O Unit₀
  pub start : Cmd → Action O Unit₀
  pub read_stdout : Cmd → O → String × O
  pub read_stderr : Cmd → O → String × O
  pub write_stdin : Cmd → String → O → O
  pub wait : Cmd → Action O Unit₀
  pub output_of : Cmd → O → Output × O
