-- ===== src/Tests/Machine.antt =====
-- A machine that is a list of files and the commands that it has run. `kubectl` works or fails.
use hambone.Base.{
  String, ◌≡◌, ◌≢◌, arith, Bool, true, false, Option, none, some, List, [], ◌∷◌, ◌++◌, ◌==◌, ◌&&◌,
  if◌then◌else◌,
}
use hambone.Go.{Error, plain, Result, ok, err}
use hambone.Pb.{Instance, OldInstance, File}
use hambone.Sys.{Os, Output}
use hambone.Etcd.Client.{KeyValue}
use hambone.Etcd.Lawful.{find}
use hambone.Instances.Statuses.{ItemStatuses}

pub record Box : Type 0 where
  pub files : List KeyValue
  pub log : List (List String)
  pub kubectl_works : Bool

abbrev pub no_such_file : Error
no_such_file = plain "no such file or directory"

abbrev pub absent : Option String → Bool
absent none = true
absent (some _) = false

abbrev pub contents_of : Option String → Result String
contents_of none = err no_such_file
contents_of (some text) = ok text

abbrev pub ran : String → List String → Box → Box
ran cmd args box = record box { log = box.log ++ ((cmd ∷ args) ∷ []) }

-- `git diff --exit-code HEAD …` finds a change; every other command succeeds.
abbrev pub asks_for_changes : List String → Bool
asks_for_changes (a ∷ b ∷ c ∷ rest) = a == "diff" && c == "HEAD"
asks_for_changes args = false

abbrev pub result_of : List String → Output
result_of args = record {
  text = "";
  error = if asks_for_changes args then some (plain "exit status 1") else none;
}

abbrev pub box_os : Os Box
box_os = record {
  Cmd = List String;
  Handle = String;
  chdir = λ dir box. (ok tt, box);
  not_exist = λ path box. (ok (absent (find path box.files)), box);
  read_file = λ path box. (contents_of (find path box.files), box);
  write_file = λ path contents box.
      (ok tt, record box { files = record { key = path; value = contents } ∷ box.files });
  mkdir_all = λ path box. (ok tt, box);
  read_dir = λ path box. (ok [], box);
  walk = λ path box. (ok [], box);
  open_file = λ path box. (ok path, box);
  read_dir_names = λ path n box. (ok none, box);
  close_file = λ path box. (ok tt, box);
  combined_output = λ cmd args box. (result_of args, ran cmd args box);
  command = λ cmd args box. (cmd ∷ args, box);
  stdout_pipe = λ cmd box. (ok tt, box);
  stderr_pipe = λ cmd box. (ok tt, box);
  stdin_pipe = λ cmd box. (ok tt, box);
  start = λ cmd box. (ok tt, record box { log = box.log ++ (cmd ∷ []) });
  read_stdout = λ cmd box. ("kind: Deployment", box);
  read_stderr = λ cmd box. ("", box);
  write_stdin = λ cmd text box. box;
  wait = λ cmd box. (ok tt, box);
  output_of = λ cmd box. (
    record { text = ""; error = if box.kubectl_works then none else some (plain "exit status 1") },
    record box { log = box.log ++ (cmd ∷ []) },
  );
}

abbrev pub no_items : String → Result ItemStatuses
no_items text = ok []

abbrev pub new_box : Box
new_box = record { files = []; log = []; kubectl_works = true }

abbrev pub broken_box : Box
broken_box = record { files = []; log = []; kubectl_works = false }

abbrev pub readme : File
readme = record { name = "readme"; directory = "."; contents = "r" }

abbrev pub web : Instance
web = record {
  name = "web";
  kustomization_yaml = "y";
  statuses = [];
  statuses_error_message = "";
  old_instance = none;
  files = readme ∷ [];
}

abbrev pub old_named : String → String → OldInstance
old_named name yaml = record {
  name = name;
  kustomization_yaml = yaml;
  statuses = [];
  statuses_error_message = "";
  files = [];
}

abbrev pub web_after : OldInstance → Instance
web_after old = record web { old_instance = some old }

-- Two texts that the test tells apart.
pub differ : (a b : String) → (a == b) ≡ false → a ≢ b
differ a b h e = ground (arith, e)

pub present :
    (o : Option String) (t : String) (b : Bool) → o ≡ some t → ok (absent o) ≡ ok b → b ≡ false
present none t b h e = cc
present (some s) t b h e = cc

pub read_contents : (o : Option String) (t : String) → contents_of o ≡ ok t → o ≡ some t
read_contents none t e = cc
read_contents (some s) t e = cc
