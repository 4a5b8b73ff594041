-- ===== src/State/Cleanup/Preserve.antt =====
-- What cleaning up does not change.
use hambone.Base.{
  String, Bool, true, false, ◌≡◌, refl, sym, subst, inl, inr, Option, none, some, List, [], ◌∷◌,
  reverse, arith, All, All-append,
}
use hambone.Go.{Error, Result, ok, panicked, Result-cases, Action, ◌>>=◌}
use hambone.State.Cleanup.{Cleanup, attempt, record_error, conclude, run_each, run_cleanup_funcs}
use hambone.State.Cleanup.Reverse.{reverse_slice-eq-reverse}
use mathlib.Core.List.{reverse-cons}

module _ {S : Type 0} (P : S → Type 0) where
  -- A cleanup function after which `P` still holds.
  abbrev pub Preserves : Cleanup S → Type 0
  Preserves f = (s : S) → P s → P (f.call s).1

  module _ (f : Cleanup S) (fs : List (Cleanup S)) (acc : Bool × String) (s : S) where
    run_each-next :
        (o : Option Error)
        → (attempt f.call s).0 ≡ ok o
        → run_each (f ∷ fs) acc s ≡ run_each fs (record_error f.name o acc) (f.call s).1
    unfolding run_each
    run_each-next o e = elim (Result-cases (f.call s).0) [
      | inl (a, r) ↦ ground arith
      | inr (inl (x, r)) ↦ ground arith
      | inr (inr (x, r)) ↦ ground arith
    ]

    run_each-stops :
        (x : String)
        → (f.call s).0 ≡ panicked x
        → run_each (f ∷ fs) acc s ≡ (panicked x, (f.call s).1)
    unfolding run_each
    run_each-stops x e = ground arith

  run_each-keeps :
      (fs : List (Cleanup S)) (acc : Bool × String) (s : S)
      → All Preserves fs
      → P s
      → P (run_each fs acc s).1
  unfolding run_each
  run_each-keeps [] acc s h p = p
  run_each-keeps (f ∷ fs) acc s h p =
      let next : (o : Option Error) → P (run_each fs (record_error f.name o acc) (f.call s).1).1 =
        λ o. run_each-keeps fs (record_error f.name o acc) (f.call s).1 h.1 (h.0 s p) in
      elim (Result-cases (f.call s).0) [
        | inl (a, e) ↦
            subst (λ (r : Result (Bool × String) × S). P r.1)
              (sym (run_each-next f fs acc s none (ground arith))) (next none)
        | inr (inl (x, e)) ↦
            subst (λ (r : Result (Bool × String) × S). P r.1)
              (sym (run_each-next f fs acc s (some x) (ground arith))) (next (some x))
        | inr (inr (x, e)) ↦
            subst (λ (r : Result (Bool × String) × S). P r.1) (sym (run_each-stops f fs acc s x e))
              (h.0 s p)
      ]

  All-reverse : (fs : List (Cleanup S)) → All Preserves fs → All Preserves (reverse fs)
  All-reverse [] h = tt
  All-reverse (f ∷ fs) h =
      rw reverse-cons (All-append Preserves (reverse fs) _ (All-reverse fs h.1) (h.0, tt))

  conclude-state :
      (wrap : String → Error) (acc : Bool × String) (s : S) → (conclude wrap acc s).1 ≡ s
  conclude-state wrap (true, t) s = refl
  conclude-state wrap (false, t) s = refl

  conclude_state :
      (wrap : String → Error) (m : Action S (Bool × String)) (s : S)
      → ((m >>= conclude wrap) s).1 ≡ (m s).1
  conclude_state wrap m s = grind (arith, conclude-state)

  -- Cleaning up preserves what every cleanup function preserves, also if one of them panics.
  pub cleanup-keeps :
      (wrap : String → Error) (fs : List (Cleanup S)) (s : S)
      → All Preserves fs
      → P s
      → P (run_cleanup_funcs wrap fs s).1
  unfolding run_cleanup_funcs
  cleanup-keeps wrap fs s h p =
      rw (conclude_state, reverse_slice-eq-reverse)
        (run_each-keeps (reverse fs) (false, "Cleanup Errors: ") s (All-reverse fs h) p)
