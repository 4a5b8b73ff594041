-- ===== src/Tests/ToolRuns.antt =====
-- Runs of the tools and of the rollback on the small machine.
use hambone.Base.{◌≡◌, refl, ◌≢◌, none, [], ◌∷◌, String-discrete}
use hambone.Go.{ok}
use hambone.Instances.Exec.{pipe_kustomize_to_kubectl}
use hambone.Instances.Exec.Accepted.{started, printed, ended, pipe-accepted}
use hambone.Tests.Machine.{box_os, new_box}

pipe-accepted_example :
    ((started box_os "i/web" ("apply" ∷ []) new_box).0 ≡ ok tt)
    × ((printed box_os "i/web" ("apply" ∷ []) new_box).0 ≢ "")
    × ((ended box_os "i/web" ("apply" ∷ []) new_box).0 ≡ ok tt)
    × ((box_os.output_of
          ("kubectl" ∷ "apply" ∷ [])
          (ended box_os "i/web" ("apply" ∷ []) new_box).1).0
        ≡ record { text = ""; error = none })
unfolding pipe_kustomize_to_kubectl String-discrete
pipe-accepted_example =
    pipe-accepted box_os "i/web" ("apply" ∷ []) new_box (record { text = ""; error = none }) refl
      refl
