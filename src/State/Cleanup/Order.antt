-- ===== src/State/Cleanup/Order.antt =====
-- Which cleanup functions run, in which order, and what is reported of them.
use hambone.Base.{
  ap, String, ◌≡◌, ◌↔◌, ◌≢◌, refl, sym, ◌∙◌, Bool, true, false, Option-cases, inl, inr, List, [],
  ◌∷◌, reverse, arith, All, All-append,
}
use hambone.Go.{Error, Result, ok, err, panicked, error_of, Unit₀}
use hambone.Go.Rules.{>>=-of_ok}
use hambone.State.Cleanup.{
  Cleanup, record_error, run_each, conclude, reverse_slice, run_cleanup_funcs,
}
use mathlib.Core.Bool.{false≢true}
use mathlib.Core.List.{reverse-cons}
use hambone.State.Cleanup.Reverse.{reverse_slice-eq-reverse}

module _ {W : Type 0} where
  -- Each function in turn, whatever the others returned.
  abbrev pub run_all : List (Cleanup W) → W → W
  run_all [] w = w
  run_all (f ∷ fs) w = run_all fs (f.call w).1

  -- Each function in turn returned nil.
  abbrev pub AllOk : List (Cleanup W) → W → Type 0
  AllOk [] w = Unit
  AllOk (f ∷ fs) w = ((f.call w).0 ≡ ok tt) × AllOk fs (f.call w).1

  abbrev pub NeverPanics : Cleanup W → Type 0
  NeverPanics f = (w : W) (p : String) → (f.call w).0 ≢ panicked p

  -- What the loop has noted at its end: whether there was an error, and the text.
  abbrev report : List (Cleanup W) → Bool × String → W → Bool × String
  report [] acc w = acc
  report (f ∷ fs) acc w = report fs (record_error f.name (error_of (f.call w).0) acc) (f.call w).1

  module _ (f : Cleanup W) (acc : Bool × String) (w : W) where
    attempt_step :
        (fs : List (Cleanup W)) (r : Result Unit₀)
        → (f.call w).0 ≡ r
        → ((p : String) → r ≢ panicked p)
        → run_each (f ∷ fs) acc w
          ≡ run_each fs (record_error f.name (error_of (f.call w).0) acc) (f.call w).1
    unfolding run_each
    attempt_step fs (ok a) e h = ground arith
    attempt_step fs (err x) e h = ground arith
    attempt_step fs (panicked p) e h = absurd (h p refl)

  run_each_lem :
      (fs : List (Cleanup W)) (acc : Bool × String) (w : W)
      → All NeverPanics fs
      → run_each fs acc w ≡ (ok (report fs acc w), run_all fs w)
  unfolding run_each
  run_each_lem [] acc w h = refl
  run_each_lem (f ∷ fs) acc w h = attempt_step f acc w fs _ refl (h.0 w) ∙ run_each_lem fs _ _ h.1

  -- An error once noted stays noted.
  report_sticky : (fs : List (Cleanup W)) (t : String) (w : W) → (report fs (true, t) w).0 ≡ true
  report_sticky [] t w = refl
  report_sticky (f ∷ fs) t w = elim (Option-cases (error_of (f.call w).0)) [
    | inl e ↦ rw (e, report) (report_sticky fs t _)
    | inr (x, e) ↦ rw (e, report) (report_sticky fs _ _)
  ]

  report-AllOk :
      (fs : List (Cleanup W)) (t : String) (w : W)
      → All NeverPanics fs
      → (((report fs (false, t) w).0 ≡ false) ↔ AllOk fs w)
  report-AllOk [] t w h = (λ _. tt, λ _. refl)
  report-AllOk (f ∷ fs) t w h = go (report-AllOk fs t (f.call w).1 h.1) (f.call w).0 refl
    where
      go :
          ((report fs (false, t) (f.call w).1).0 ≡ false) ↔ AllOk fs (f.call w).1
          → (r : Result Unit₀) → (f.call w).0 ≡ r
          → (((report (f ∷ fs) (false, t) w).0 ≡ false) ↔ AllOk (f ∷ fs) w)
      go ih (ok a) e = rw (e, report) (λ p. (refl, ih.0 p), λ q. ih.1 q.1)
      go ih (err x) e =
          rw (e, report) (λ p. absurd (false≢true (sym p ∙ report_sticky fs _ _)), λ q. cc (q.0))
      go ih (panicked p) e = absurd (h.0 w p e)

  conclude_state :
      (wrap : String → Error) (acc : Bool × String) (w : W) → (conclude wrap acc w).1 ≡ w
  conclude_state wrap (true, t) w = refl
  conclude_state wrap (false, t) w = refl

  conclude_iff :
      (wrap : String → Error) (acc : Bool × String) (w : W)
      → ((conclude wrap acc w).0 ≡ ok tt) ↔ (acc.0 ≡ false)
  conclude_iff wrap (true, t) w = (λ p. cc, λ p. cc)
  conclude_iff wrap (false, t) w = (λ p. refl, λ p. refl)

  All-reverse : (fs : List (Cleanup W)) → All NeverPanics fs → All NeverPanics (reverse fs)
  All-reverse [] h = tt
  All-reverse (f ∷ fs) h =
      rw reverse-cons (All-append NeverPanics (reverse fs) _ (All-reverse fs h.1) (h.0, tt))

  conclude_quiet :
      (wrap : String → Error) (acc : Bool × String) (w : W) (p : String)
      → (conclude wrap acc w).0 ≢ panicked p
  conclude_quiet wrap (true, t) w p h = cc
  conclude_quiet wrap (false, t) w p h = cc

  run_cleanup_funcs-concludes :
      (wrap : String → Error) (fs : List (Cleanup W)) (w : W)
      → All NeverPanics fs
      → run_cleanup_funcs wrap fs w
        ≡ conclude wrap (report (reverse fs) (false, "Cleanup Errors: ") w) (run_all (reverse fs) w)
  unfolding run_cleanup_funcs
  run_cleanup_funcs-concludes wrap fs w h =
      let runs : run_each (reverse_slice fs) (false, "Cleanup Errors: ") w
          ≡ (ok (report (reverse fs) (false, "Cleanup Errors: ") w), run_all (reverse fs) w) =
        rw reverse_slice-eq-reverse
          (run_each_lem (reverse fs) (false, "Cleanup Errors: ") w (All-reverse fs h)) in
      >>=-of_ok (conclude wrap) (run_each (reverse_slice fs) (false, "Cleanup Errors: ")) w runs

  -- Cleanup functions that do not panic are run without a panic.
  pub run_cleanup_funcs-quiet :
      (wrap : String → Error) (fs : List (Cleanup W)) (w : W)
      → All NeverPanics fs
      → (p : String) → (run_cleanup_funcs wrap fs w).0 ≢ panicked p
  run_cleanup_funcs-quiet wrap fs w h p e =
      conclude_quiet wrap (report (reverse fs) (false, "Cleanup Errors: ") w) _ p
        (ap (λ (x : Result Unit₀ × W). x.0) (sym (run_cleanup_funcs-concludes wrap fs w h)) ∙ e)

  -- Cleanup functions that do not panic all run once, the last one registered first, also after one
  -- of them has failed. The result is nil exactly if each of them returned nil.
  pub run_cleanup_funcs_lifo :
      (wrap : String → Error) (fs : List (Cleanup W)) (w : W)
      → All NeverPanics fs
      → ((run_cleanup_funcs wrap fs w).1 ≡ run_all (reverse fs) w)
        × (((run_cleanup_funcs wrap fs w).0 ≡ ok tt) ↔ AllOk (reverse fs) w)
  run_cleanup_funcs_lifo wrap fs w h =
      let acc : Bool × String = report (reverse fs) (false, "Cleanup Errors: ") w in
      let flag = report-AllOk (reverse fs) "Cleanup Errors: " w (All-reverse fs h) in
      rw (run_cleanup_funcs-concludes wrap fs w h) (
        conclude_state wrap acc _,
        (λ p. flag.0 ((conclude_iff wrap acc _).0 p), λ q. (conclude_iff wrap acc _).1 (flag.1 q)),
      )

  pub run_cleanup_funcs-none :
      (wrap : String → Error) (w : W) → (run_cleanup_funcs wrap [] w).0 ≡ ok tt
  run_cleanup_funcs-none wrap w = (run_cleanup_funcs_lifo wrap [] w tt).1.1 tt
