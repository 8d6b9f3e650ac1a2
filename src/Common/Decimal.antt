-- ===== src/Common/Decimal.antt =====
-- `%d` of a number that is not negative.
use Prim.Native.Nat.{ℕ, zero, suc, ◌+◌, ◌-◌, ◌*◌, ◌/◌, ◌%◌, ◌<◌}
use mathlib.Core.Path.{◌≡◌, ap}
use mathlib.Core.List.{[], ◌∷◌}
use native.Mathlib.Omega.{arith}
use callvoice.Common.Tests.{ltb, if◌then◌else◌}
use callvoice.Common.Texts.{Text}

-- The digits of `n` before `out`; the fuel is above `n`, which falls to a tenth in each round.
digits_of : ℕ → ℕ → Text → Text
digits_of zero n out = out
digits_of (suc f) n out =
    let rest = digits_of f (n / 10) ((b'0' + n % 10) ∷ out) in
    if ltb n 10 then (b'0' + n) ∷ out else rest

unfoldable pub decimal : ℕ → Text
unfolding digits_of
decimal n = digits_of (suc n) n []

-- The number that digits spell after `acc`.
value_from : ℕ → Text → ℕ
value_from acc [] = acc
value_from acc (c ∷ s) = value_from (acc * 10 + (c - b'0')) s

value_from-digits_of :
    (f n : ℕ) (out : Text) → n < f → value_from 0 (digits_of f n out) ≡ value_from n out
unfolding digits_of value_from
value_from-digits_of zero n out h = absurd (omega arith)
value_from-digits_of (suc f) n out h = ground (
  arith,
  value_from-digits_of f (n / 10) ((b'0' + n % 10) ∷ out),
  ap (λ (a : ℕ). value_from a out) (last_digit n),
)
  where
    last_digit : (n : ℕ) → n / 10 * 10 + (b'0' + n % 10 - b'0') ≡ n
    last_digit n = omega arith

value-decimal : (n : ℕ) → value_from 0 (decimal n) ≡ n
unfolding decimal value_from
value-decimal n = value_from-digits_of (suc n) n [] (omega arith)

pub decimal-injective : (m n : ℕ) → decimal m ≡ decimal n → m ≡ n
decimal-injective m n h = omega (arith, value-decimal m, value-decimal n, ap (value_from 0) h)
