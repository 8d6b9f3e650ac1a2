-- ===== src/Common/Int.antt =====
-- Signed numbers: Go's `int`, and Go's `int64` replies of INCR and DECR (their range is left unbounded).
use Prim.Native.Nat.{ℕ, zero, suc}
use mathlib.Core.Path.{◌≡◌, refl}
use mathlib.Core.Bool.{Bool, true, false}
use callvoice.Common.Tests.{ltb, leb}

-- `negsuc n` is -(n + 1).
pub data ℤ : Type 0 where
  pos : ℕ → ℤ
  negsuc : ℕ → ℤ

abbrev pub add_one : ℤ → ℤ
add_one (pos n) = pos (suc n)
add_one (negsuc zero) = pos 0
add_one (negsuc (suc n)) = negsuc n

abbrev pub sub_one : ℤ → ℤ
sub_one (pos zero) = negsuc 0
sub_one (pos (suc n)) = pos n
sub_one (negsuc n) = negsuc (suc n)

abbrev pub is_negative : ℤ → Bool
is_negative (pos n) = false
is_negative (negsuc n) = true

-- `n < m` for a limit that is not negative.
abbrev pub below : ℤ → ℕ → Bool
below (pos n) m = ltb n m
below (negsuc n) m = true

-- `m < n`, for a limit that is not negative.
abbrev pub above : ℤ → ℕ → Bool
above (pos n) m = ltb m n
above (negsuc n) m = false

abbrev pub is_zero : ℤ → Bool
is_zero (pos zero) = true
is_zero _ = false

-- `a <= b`
abbrev pub no_more : ℤ → ℤ → Bool
no_more (pos a) (pos b) = leb a b
no_more (pos a) (negsuc b) = false
no_more (negsuc a) (pos b) = true
no_more (negsuc a) (negsuc b) = leb b a

pub sub_one-add_one : (n : ℤ) → sub_one (add_one n) ≡ n
sub_one-add_one (pos n) = refl
sub_one-add_one (negsuc zero) = refl
sub_one-add_one (negsuc (suc n)) = refl
