-- ===== src/State/Cleanup.antt =====
-- The field `cleanupFuncs` of every receiver, and `runCleanupFuncs`, which the two adapters hold
-- a copy of each.
pub mod Reverse
pub mod Order
pub mod Preserve
use hambone.Base.{
  ℕ, zero, suc, ◌-◌, ◌/◌, String, ◌<>◌, Bool, true, false, Option, none, some, List, [], ◌∷◌,
  length,
}
use hambone.Go.{Error, error_text, ok, err, panicked, Action, Unit₀, pure, fail, ◌>>=◌}

-- A `func() error` with the name that the runtime reports for it.
pub record Cleanup (W : Type 0) : Type 0 where
  pub name : String
  pub call : Action W Unit₀

-- `xs[i] = a`; every index that the loop uses is in range.
module _ {ℓ} {A : Type ℓ} where
  unfoldable pub get_elem? : List A → ℕ → Option A
  get_elem? [] i = none
  get_elem? (x ∷ xs) zero = some x
  get_elem? (x ∷ xs) (suc i) = get_elem? xs i

  unfoldable pub set : List A → ℕ → Option A → List A
  set xs i none = xs
  set [] i (some a) = []
  set (x ∷ xs) zero (some a) = a ∷ xs
  set (x ∷ xs) (suc i) (some a) = x ∷ set xs i (some a)

  -- `xs[i], xs[j] = xs[j], xs[i]`
  unfoldable pub swap : List A → ℕ → ℕ → List A
  swap xs i j = set (set xs i (get_elem? xs j)) j (get_elem? xs i)

  -- The rounds `i = k - 1, …, 0`.
  unfoldable pub reverse_rounds : ℕ → List A → List A
  reverse_rounds zero xs = xs
  reverse_rounds (suc i) xs = reverse_rounds i (swap xs i (length xs - 1 - i))

  unfoldable pub reverse_slice : List A → List A
  reverse_slice xs = reverse_rounds (length xs / 2) xs

abbrev pub record_error : String → Option Error → Bool × String → Bool × String
record_error name none acc = acc
record_error name (some e) (is_error, text) =
    (true, text <> ("\n" <> (name <> (": " <> (error_text e <> "\n")))))

module _ {W : Type 0} where
  -- The error of a call, as a value.
  abbrev pub attempt : Action W Unit₀ → Action W (Option Error)
  attempt m w =
      let (r, w') = m w in
      elim r [ ok _ ↦ (ok none, w') | err e ↦ (ok (some e), w') | panicked p ↦ (panicked p, w') ]

  unfoldable pub run_each : List (Cleanup W) → Bool × String → Action W (Bool × String)
  run_each [] acc = pure acc
  run_each (f ∷ fs) acc = attempt f.call >>= λ e. run_each fs (record_error f.name e acc)

  abbrev pub conclude : (String → Error) → Bool × String → Action W Unit₀
  conclude wrap (true, text) = fail (wrap text)
  conclude wrap (false, _) = pure tt

  -- `wrap` is `fmt.Errorf` in one adapter and `status.Errorf(codes.Unknown, …)` in the other.
  unfoldable pub run_cleanup_funcs : (String → Error) → List (Cleanup W) → Action W Unit₀
  unfolding run_each
  run_cleanup_funcs wrap funcs =
      run_each (reverse_slice funcs) (false, "Cleanup Errors: ") >>= conclude wrap
