-- ===== src/Base/Range.antt =====
-- The list 0, 1, …, n - 1, and how often a number stands in a list.
use Prim.Native.Nat.{ℕ, zero, suc, ◌+◌, ◌≤◌, ◌<◌}
use mathlib.Core.Path.{◌≡◌, refl}
use mathlib.Core.Logic.{◌≢◌}
use mathlib.Core.List.{List, [], ◌∷◌, ◌++◌}
use native.Mathlib.Omega.{arith}
use fiberexec.Base.Lists.{length}
use fiberexec.Base.Tests.{◌==◌, if◌then◌else◌}

-- Indices from `i` on, `n` of them.
abbrev pub range_from : ℕ → ℕ → List ℕ
range_from i zero = []
range_from i (suc n) = i ∷ range_from (suc i) n

abbrev pub range : ℕ → List ℕ
range n = range_from 0 n

pub length-range_from : (i n : ℕ) → length (range_from i n) ≡ n
length-range_from i zero = refl
length-range_from i (suc n) = omega (arith, length-range_from (suc i) n)

-- How often a number stands in a list.
abbrev pub count : ℕ → List ℕ → ℕ
count a [] = 0
count a (x ∷ xs) = (if a == x then 1 else 0) + count a xs

pub count-append : (id : ℕ) (l r : List ℕ) → count id (l ++ r) ≡ count id l + count id r
count-append id [] r = omega arith
count-append id (b ∷ l) r = ground (arith, count-append id l r)

count-range_from_above : (a i n : ℕ) → a < i → count a (range_from i n) ≡ 0
count-range_from_above a i zero h = refl
count-range_from_above a i (suc n) h = ground (arith, count-range_from_above a (suc i) n)

pub count-range_from : (a i n : ℕ) → count a (range_from i n) ≤ 1
count-range_from a i zero = omega arith
count-range_from a i (suc n) =
    ground (arith, count-range_from_above a (suc i) n, count-range_from a (suc i) n)

pub count-range_from-in : (a i n : ℕ) → i ≤ a → a < i + n → count a (range_from i n) ≡ 1
count-range_from-in a i zero h l = absurd (omega arith)
count-range_from-in a i (suc n) h l =
    ground (arith, count-range_from_above a (suc i) n, count-range_from-in a (suc i) n)

pub count-range_from-out : (a i n : ℕ) → i + n ≤ a → count a (range_from i n) ≡ 0
count-range_from-out a i zero h = refl
count-range_from-out a i (suc n) h = ground (arith, count-range_from-out a (suc i) n)

pub count-here : (a : ℕ) (xs : List ℕ) → count a (a ∷ xs) ≡ count a xs + 1
count-here a xs = ground arith

pub count-other : (a b : ℕ) (xs : List ℕ) → a ≢ b → count a (b ∷ xs) ≡ count a xs
count-other a b xs h = ground arith
