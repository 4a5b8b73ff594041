-- ===== src/Go.antt =====
-- Go's errors as values, calls that read and write a state, panics, and `path/filepath`.
-- The packages are the language's library: `errors`, `fmt`, `google.golang.org/grpc/status`.
pub mod FilePath
pub mod Rules
use hambone.Base.{String, ◌<>◌, Option, none, some, Bool, if◌then◌else◌, ◌≡◌, refl, ◌⊎◌, inl, inr}

-- The codes of `google.golang.org/grpc/codes` that the source uses.
pub data Code : Type 0 where
  unknown not_found failed_precondition unavailable : Code

code_text : Code → String
code_text unknown = "Unknown"
code_text not_found = "NotFound"
code_text failed_precondition = "FailedPrecondition"
code_text unavailable = "Unavailable"

-- `errors.New` and `fmt.Errorf`; `status.Error` and `status.Errorf`.
pub data Error : Type 0 where
  plain : String → Error
  status : Code → String → Error

-- `err.Error()`
unfoldable pub error_text : Error → String
unfolding code_text
error_text (plain message) = message
error_text (status c message) = "rpc error: code = " <> (code_text c <> (" desc = " <> message))

-- How a call ends: with its value, with a non-nil error, or by a panic of the runtime.
pub data Result (A : Type 0) : Type 0 where
  ok : A → Result A
  err : Error → Result A
  panicked : String → Result A

-- A call reads and writes a state. The state comes back after an error too.
abbrev pub Action : Type 0 → Type 0 → Type 0
Action W A = W → Result A × W

abbrev pub Unit₀ : Type 0
Unit₀ = Unit

module _ {W : Type 0} where
  abbrev pub pure : {A : Type 0} → A → Action W A
  pure a w = (ok a, w)

  -- A call that returns no error.
  abbrev pub always : {A : Type 0} → (W → A × W) → Action W A
  always m w = let (a, w') = m w in (ok a, w')

  abbrev pub fail : {A : Type 0} → Error → Action W A
  fail e w = (err e, w)

  abbrev pub panic : {A : Type 0} → String → Action W A
  panic p w = (panicked p, w)

  abbrev pub gets : {A : Type 0} → (W → A) → Action W A
  gets f w = (ok (f w), w)

  abbrev pub modify : (W → W) → Action W Unit₀
  modify f w = (ok tt, f w)

  -- `if c { return e }`
  abbrev pub fail_if : Bool → Error → Action W Unit₀
  fail_if c e w = (if c then err e else ok tt, w)

  abbrev pub skip : Action W Unit₀
  skip w = (ok tt, w)

infixl 5 ◌>>=◌ ◌>>◌
abbrev pub ◌>>=◌ : {W A B : Type 0} → Action W A → (A → Action W B) → Action W B
◌>>=◌ m f w =
    let (r, w') = m w in
    elim r [ ok a ↦ f a w' | err e ↦ (err e, w') | panicked p ↦ (panicked p, w') ]

abbrev pub ◌>>◌ : {W A B : Type 0} → Action W A → Action W B → Action W B
m >> k = m >>= λ _. k

-- `if err := m; err != nil { return h(err) }`
abbrev pub rescue : {W A : Type 0} → Action W A → (Error → Action W A) → Action W A
rescue m h w =
    let (r, w') = m w in
    elim r [ ok a ↦ (ok a, w') | err e ↦ h e w' | panicked p ↦ (panicked p, w') ]

-- `if err := m; err != nil { return h(err) }`, with the rest of the body as `k`.
abbrev pub check : {W A B : Type 0} → Action W A → (Error → Action W B) → Action W B → Action W B
check m h k w =
    let (r, w') = m w in elim r [ ok a ↦ k w' | err e ↦ h e w' | panicked p ↦ (panicked p, w') ]

-- A panic of a deferred call takes the place of what the body returned; its error is dropped.
abbrev pub panic_over : {A : Type 0} → Result A → Result Unit₀ → Result A
panic_over r (ok _) = r
panic_over r (err e) = r
panic_over r (panicked p) = panicked p

-- `defer d()` around what follows it: `d` runs however the body ends.
abbrev pub deferred : {W A : Type 0} → Action W A → Action W Unit₀ → Action W A
deferred m d w = let (r, w') = m w in let (q, w'') = d w' in (panic_over r q, w'')

-- `err = m; defer d(); if err != nil { return err }`, with the rest of the body as `k`: once `m`
-- has returned, `d` runs however the body ends, and the error of `d` is dropped.
abbrev pub then_deferred : {W A B : Type 0} → Action W A → Action W Unit₀ → Action W B → Action W B
then_deferred m d k w =
    let (r, w') = m w in
    elim r [
      | ok a ↦ deferred k d w'
      | err e ↦ deferred (fail e) d w'
      | panicked p ↦ (panicked p, w')
    ]

-- The error of a call whose other results are dropped.
abbrev pub error_of : {A : Type 0} → Result A → Option Error
error_of (ok _) = none
error_of (err e) = some e
error_of (panicked _) = none

-- To split on how a call ended and keep the equation.
pub Result-cases :
    {A : Type 0} (r : Result A)
    → ((a : A) × (r ≡ ok a)) ⊎ (((e : Error) × (r ≡ err e)) ⊎ ((p : String) × (r ≡ panicked p)))
Result-cases (ok a) = inl (a, refl)
Result-cases (err e) = inr (inl (e, refl))
Result-cases (panicked p) = inr (inr (p, refl))
