-- ===== src/Base/Decimal.antt =====
-- The digits of a number.
use Prim.Native.Nat.{ℕ, zero, suc, ◌+◌, ◌/◌, ◌%◌}
use mathlib.Core.Path.{◌≡◌, refl}
use mathlib.Core.Logic.{inl, inr}
use mathlib.Core.Bool.{false}
use native.Mathlib.Omega.{arith}
use hambone.Base.Tests.{ltb, Bool-cases}
use hambone.Base.Text.{digit, decimal_fuel, decimal}
use hambone.Base.Prefix.{has_code, has_code-glue, glue-eq}

digit-no_slash : (n : ℕ) → has_code b'/' (digit n) ≡ false
unfolding digit has_code
digit-no_slash zero = refl
digit-no_slash (suc zero) = refl
digit-no_slash (suc (suc zero)) = refl
digit-no_slash (suc (suc (suc zero))) = refl
digit-no_slash (suc (suc (suc (suc zero)))) = refl
digit-no_slash (suc (suc (suc (suc (suc zero))))) = refl
digit-no_slash (suc (suc (suc (suc (suc (suc zero)))))) = refl
digit-no_slash (suc (suc (suc (suc (suc (suc (suc zero))))))) = refl
digit-no_slash (suc (suc (suc (suc (suc (suc (suc (suc zero)))))))) = refl
digit-no_slash (suc (suc (suc (suc (suc (suc (suc (suc (suc n))))))))) = refl

decimal_fuel-no_slash : (f n : ℕ) → has_code b'/' (decimal_fuel f n) ≡ false
unfolding decimal_fuel has_code
decimal_fuel-no_slash zero n = refl
decimal_fuel-no_slash (suc f) n = elim (Bool-cases (ltb n 10)) [
  | inl e ↦ ground (arith, digit-no_slash n)
  | inr e ↦ ground (
    arith,
    glue-eq (decimal_fuel f (n / 10)) (digit (n % 10)),
    has_code-glue b'/' (decimal_fuel f (n / 10)) (digit (n % 10)),
    decimal_fuel-no_slash f (n / 10),
    digit-no_slash (n % 10),
  )
]

-- There is no slash among them.
pub decimal-no_slash : (n : ℕ) → has_code b'/' (decimal n) ≡ false
unfolding decimal
decimal-no_slash n = decimal_fuel-no_slash (n + 1) n
