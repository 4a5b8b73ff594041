-- ===== src/Go/Rules.antt =====
-- How a sequence of calls ends, from how its calls end.
use hambone.Base.{◌≡◌, refl, ap}
use hambone.Go.{Result, ok, err, panicked, Action, ◌>>=◌}

module _ {W A B : Type 0} (f : A → Action W B) where
  -- What follows a call in a sequence.
  abbrev continue : Result A → W → Result B × W
  continue r w' = elim r [ ok a ↦ f a w' | err e ↦ (err e, w') | panicked p ↦ (panicked p, w') ]

  continue-ok :
      (r : Result A) (w' : W) {b : B}
      → (continue r w').0 ≡ ok b
      → (a : A) × (r ≡ ok a) × (continue r w' ≡ f a w')
  continue-ok (ok a) w' h = (a, refl, refl)
  continue-ok (err e) w' h = cc
  continue-ok (panicked p) w' h = cc

  -- A sequence that returns a value: its first call did, and the rest goes on from there.
  pub >>=-ok :
      (m : Action W A) (w : W) {b : B}
      → ((m >>= f) w).0 ≡ ok b
      → (a : A) × ((m w).0 ≡ ok a) × ((m >>= f) w ≡ f a (m w).1)
  >>=-ok m w h = continue-ok (m w).0 (m w).1 h

  pub >>=-of_ok :
      (m : Action W A) (w : W) {a : A} {w' : W} → m w ≡ (ok a, w') → (m >>= f) w ≡ f a w'
  >>=-of_ok m w e = ap (λ (p : Result A × W). continue p.0 p.1) e
