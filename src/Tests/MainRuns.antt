-- ===== src/Tests/MainRuns.antt =====
-- Starts of the program, and what is printed for debugging.
use hambone.Base.{◌≡◌, refl, String, some, List, [], ◌∷◌, ◌++◌, join, replace_newline}
use hambone.Go.{plain, ok, Action, Unit₀, panicked}
use hambone.Sys.{Os, Output}
use hambone.State.Receiver.{World}
use hambone.Helpers.{indent}
use hambone.Helpers.Debug.{debug, debug_exec_output}
use hambone.Instances.Requests.{Server}
use hambone.Main.{default_flags, main}
use hambone.Main.Start.{main-git_panics}
use hambone.Tests.Cluster.{Store, cluster}
use hambone.Tests.Machine.{Box, box_os, new_box}

abbrev refused : List String → Output
refused args = record { text = ""; error = some (plain "exit status 128") }

-- Where no command of git works.
abbrev no_git : Os Box
no_git = record box_os { combined_output = λ cmd args box. (refused args, box) }

abbrev listen : String → Action Box String
listen address box = (ok address, box)

abbrev serve : (V : Type 0) → String → Server (World Store Box V) → Action (World Store Box V) Unit₀
serve V listener server w = (ok tt, w)

main-git_panics_example :
    (p : String) × ((main cluster no_git listen serve
        (record default_flags { state_plugin = "git" })
        ([], new_box)).0
      ≡ panicked p)
main-git_panics_example =
    main-git_panics cluster no_git listen serve (record default_flags { state_plugin = "git" })
      (plain "exit status 128") ([], new_box) refl (λ o. refl)

-- A run of `git push`, printed by a logger that keeps its lines.
printed :
    debug_exec_output (λ line lines. lines ++ (line ∷ [])) debug "a\nb" "git" ("push" ∷ []) []
    ≡ "Ran `git push` and got the following output:\n\ta\n\tb\n" ∷ []
unfolding debug_exec_output indent join replace_newline
printed = refl
