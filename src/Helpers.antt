-- ===== src/Helpers.antt =====
-- pkg/helpers/helpers.go
pub mod Debug
use hambone.Base.{
  String, ◌<>◌, Bool, true, false, Option, none, some, List, if◌then◌else◌, replace_newline, join,
}
use hambone.Base.Int.{ℤ, pos, ◌-ℤ◌, ltb_ℤ, leb_ℤ}
use hambone.Go.{Error, plain, error_text, Action, Unit₀, pure, deferred, ◌>>=◌, ◌>>◌}
use hambone.Go.FilePath.{dir}
use hambone.Sys.{Os}

abbrev pub kustomization_file_name : String
kustomization_file_name = "kustomization.yaml"

unfoldable pub indent : String → String
indent output = replace_newline "\n\t" output

unfoldable pub new_exec_error : Error → String → String → List String → Error
new_exec_error e output cmd args =
    let c = cmd <> (" " <> join " " args) in
    plain ("ERROR running `" <> (c <> ("`:\n\t" <> (error_text e <> (": " <> output)))))

unfoldable pub convert_start_stop_to_slice_indexes : ℤ → ℤ → ℤ → ℤ × ℤ
convert_start_stop_to_slice_indexes start stop length =
    let stop' = if ltb_ℤ length stop then length else stop in
    (if leb_ℤ start (pos 0) then pos 0 else start -ℤ pos 1, stop')

unfoldable pub get_instance_dir_file : String → String → String × String
get_instance_dir_file instances_dir instance_name =
    let instance_dir = instances_dir <> ("/" <> instance_name) in
    (instance_dir, instance_dir <> ("/" <> kustomization_file_name))

unfoldable pub mkdir_file : {O : Type 0} → Os O → String → String → Action O Unit₀
mkdir_file os file_path contents = do os.mkdir_all (dir file_path); os.write_file file_path contents

abbrev is_eof : Option (List String) → Bool
is_eof none = true
is_eof (some names) = false

module _ {O : Type 0} (os : Os O) where
  -- `IsEmpty`, which nothing in the program calls.
  unfoldable pub is_empty : String → Action O Bool
  is_empty path = do
    file ← os.open_file path
    deferred (os.read_dir_names file 1 >>= λ names. pure (is_eof names)) (os.close_file file)
