-- ===== src/Base/Bits.antt =====
-- `std::bit_ceil`: the least power of two that is not below a number.
use Prim.Native.Nat.{ℕ, zero, suc, ◌+◌, ◌*◌, ◌^◌, ◌≤◌, ◌<◌}
use mathlib.Core.Path.{◌≡◌, refl}
use mathlib.Core.Logic.{inl, inr}
use native.Mathlib.Nat.{pow-suc}
use native.Mathlib.Omega.{arith}
use fiberexec.Base.Tests.{leb, if◌then◌else◌, Bool-cases}

-- Doubling from `p`; each round but the last at least doubles `p`, so `n` rounds reach `n`.
abbrev double_up : ℕ → ℕ → ℕ → ℕ
double_up n zero p = p
double_up n (suc fuel) p = let next = double_up n fuel (2 * p) in if leb n p then p else next

unfoldable pub bit_ceil : ℕ → ℕ
bit_ceil n = double_up n n 1

double_up-reaches : (n fuel p : ℕ) → 1 ≤ p → n ≤ p + fuel → n ≤ double_up n fuel p
double_up-reaches n zero p h e = omega arith
double_up-reaches n (suc fuel) p h e = ground (arith, double_up-reaches n fuel (2 * p))

double_up-below : (n fuel p : ℕ) → 1 ≤ p → p < 2 * n → double_up n fuel p < 2 * n
double_up-below n zero p h e = e
double_up-below n (suc fuel) p h e = ground (arith, double_up-below n fuel (2 * p))

double_up-power : (n fuel p i : ℕ) → p ≡ 2 ^ i → (j : ℕ) × (double_up n fuel p ≡ 2 ^ j)
double_up-power n zero p i e = (i, e)
double_up-power n (suc fuel) p i e = elim (Bool-cases (leb n p)) [
  | inl done ↦ (i, rw done e)
  | inr more ↦ rw more (double_up-power n fuel (2 * p) (suc i) (rw (e, pow-suc) (omega arith)))
]

pub bit_ceil-reaches : (n : ℕ) → n ≤ bit_ceil n
unfolding bit_ceil
bit_ceil-reaches n = double_up-reaches n n 1 (omega arith) (omega arith)

pub bit_ceil-below : (n : ℕ) → 1 ≤ n → bit_ceil n < 2 * n
unfolding bit_ceil
bit_ceil-below n h = double_up-below n n 1 (omega arith) (omega arith)

pub bit_ceil-power : (n : ℕ) → (j : ℕ) × (bit_ceil n ≡ 2 ^ j)
unfolding bit_ceil
bit_ceil-power n = double_up-power n n 1 0 refl
