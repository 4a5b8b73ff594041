-- ===== src/Tests/StateRuns.antt =====
-- Runs of what the adapters share.
use hambone.Base.{ℕ, ◌↔◌, ◌≡◌, refl, String, Bool, List, [], ◌∷◌, ◌++◌, reverse, arith, All}
use hambone.Base.Int.{ℤ, pos}
use hambone.Go.{plain, Result, ok, err, panicked, Unit₀}
use hambone.Pb.{GetOptions}
use hambone.State.Page.{page}
use hambone.State.Page.Window.{page-window}
use hambone.State.Cleanup.{Cleanup, run_cleanup_funcs}
use hambone.State.Cleanup.Order.{run_cleanup_funcs_lifo, AllOk, NeverPanics}

abbrev numbers : List ℕ
numbers = 1 ∷ 2 ∷ 3 ∷ 4 ∷ 5 ∷ []

abbrev between : ℤ → ℤ → GetOptions
between start stop = record { name = ""; start = start; stop = stop; exclude_statuses = Bool.false }

page-window_example : page (between (pos 2) (pos 4)) numbers ≡ ok (2 ∷ 3 ∷ 4 ∷ [])
page-window_example = page-window (between (pos 2) (pos 4)) numbers 4 (omega arith) refl

-- A start behind the end panics.
page-window_panic : page (between (pos 9) (pos 0)) numbers ≡ panicked "slice bounds out of range"
unfolding page
page-window_panic = page-window (between (pos 9) (pos 0)) numbers 0 (omega arith) refl

-- Two functions that note that they ran; the second one fails.
abbrev note : String → Result Unit₀ → Cleanup (List String)
note name r = record { name = name; call = λ log. (r, log ++ (name ∷ [])) }

abbrev two_cleanups : List (Cleanup (List String))
two_cleanups = note "close" (ok tt) ∷ note "unlock" (err (plain "lost")) ∷ []

two_cleanups-quiet : All NeverPanics two_cleanups
two_cleanups-quiet = (λ w p h. cc, (λ w p h. cc, tt))

run_cleanup_funcs_example :
    ((run_cleanup_funcs plain two_cleanups []).1 ≡ "unlock" ∷ "close" ∷ [])
    × (((run_cleanup_funcs plain two_cleanups []).0 ≡ ok tt) ↔ AllOk (reverse two_cleanups) [])
run_cleanup_funcs_example = run_cleanup_funcs_lifo plain two_cleanups [] two_cleanups-quiet
