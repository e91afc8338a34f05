-- ===== src/Base/Int.antt =====
-- Signed integers over the native numbers, for `int`, `ssize_t` and `std::chrono` counts.
use Prim.Native.Nat.{ℕ, zero, suc, ◌/◌, ◌%◌}
use mathlib.Core.Path.{◌≡◌, refl}
use mathlib.Core.Bool.{Bool, true, false}
use native.Mathlib.Omega.{arith}
use fiberexec.Base.Tests.{◌==◌}

-- `negsuc n` is -(n + 1).
pub data ℤ : Type 0 where
  pos : ℕ → ℤ
  negsuc : ℕ → ℤ

abbrev pub is_neg : ℤ → Bool
is_neg (pos n) = false
is_neg (negsuc n) = true

abbrev pub is_positive : ℤ → Bool
is_positive (pos zero) = false
is_positive (pos (suc n)) = true
is_positive (negsuc n) = false

abbrev pub neg : ℤ → ℤ
neg (pos zero) = pos zero
neg (pos (suc n)) = negsuc n
neg (negsuc n) = pos (suc n)

-- Minus a positive numeral, as `-ECANCELED`.
abbrev pub minus : ℕ → ℤ
minus n = neg (pos n)

abbrev pub eq_ℤ : ℤ → ℤ → Bool
eq_ℤ (pos a) (pos b) = a == b
eq_ℤ (pos a) (negsuc b) = false
eq_ℤ (negsuc a) (pos b) = false
eq_ℤ (negsuc a) (negsuc b) = a == b

-- The value of a non-negative integer.
abbrev pub to_ℕ : ℤ → ℕ
to_ℕ (pos n) = n
to_ℕ (negsuc n) = 0

-- C++ division and remainder round towards zero.
abbrev pub div_ℤ : ℤ → ℕ → ℤ
div_ℤ (pos n) d = pos (n / d)
div_ℤ (negsuc n) d = minus (suc n / d)

abbrev pub mod_ℤ : ℤ → ℕ → ℤ
mod_ℤ (pos n) d = pos (n % d)
mod_ℤ (negsuc n) d = minus (suc n % d)

pub neg-neg : (a : ℤ) → neg (neg a) ≡ a
neg-neg (pos zero) = refl
neg-neg (pos (suc n)) = refl
neg-neg (negsuc n) = refl

pub eq_ℤ-refl : (a : ℤ) → eq_ℤ a a ≡ true
eq_ℤ-refl (pos n) = ground arith
eq_ℤ-refl (negsuc n) = ground arith

pub eq_ℤ→eq : (a b : ℤ) → eq_ℤ a b ≡ true → a ≡ b
eq_ℤ→eq (pos a) (pos b) h = ground arith
eq_ℤ→eq (pos a) (negsuc b) h = ground arith
eq_ℤ→eq (negsuc a) (pos b) h = ground arith
eq_ℤ→eq (negsuc a) (negsuc b) h = ground arith
