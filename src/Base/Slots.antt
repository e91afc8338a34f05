-- ===== src/Base/Slots.antt =====
-- Slots of equal width side by side, and the slots that a list of distinct indices names.
use Prim.Native.Nat.{ℕ, ◌+◌, ◌*◌, ◌≤◌, ◌<◌}
use mathlib.Core.Path.{◌≡◌, ap}
use mathlib.Core.Logic.{◌⊎◌, inl, inr}
use mathlib.Core.List.{List, [], ◌∷◌, ◌++◌}
use native.Mathlib.Decide.{dec_lt, dec_le}
use native.Mathlib.Omega.{arith}
use fiberexec.Base.Range.{range, count, count-append, count-range_from, count-range_from-out}

-- What starts a slot and is no longer than one ends before a later slot.
slot_end : (i j w size : ℕ) → i < j → size ≤ w → i * w + size ≤ j * w
slot_end i j w size l h = grind arith

order_cases : (i j : ℕ) → (i < j) ⊎ (j < i) ⊎ (i ≡ j)
order_cases i j = elim (dec_lt i j) [
  | yes l ↦ inl l
  | no a ↦ elim (dec_lt j i) [ yes g ↦ inr (inl g) | no b ↦ inr (inr (omega arith)) ]
]

pub count-split :
    (id buf : ℕ) (xs ys : List ℕ)
    → count id (xs ++ buf ∷ ys) ≡ count id (xs ++ ys) + count id (buf ∷ [])
count-split id buf xs ys = omega (arith, count-append id xs (buf ∷ ys), count-append id xs ys)

-- A list whose indices are all below `n`, each at most once.
abbrev pub InRange : ℕ → List ℕ → Type 0
InRange n lent = (id : ℕ) → count id lent ≤ count id (range n)

InRange-below : (n id : ℕ) (lent : List ℕ) → InRange n lent → 1 ≤ count id lent → id < n
InRange-below n id lent within h = elim (dec_le n id) [
  | yes out ↦ absurd (omega (arith, within id, count-range_from-out id 0 n (omega arith)))
  | no below ↦ omega arith
]

pub slots_apart :
    (n w : ℕ) (xs : List ℕ) (i : ℕ) (ys : List ℕ) (j size_i size_j : ℕ)
    → InRange n (xs ++ i ∷ ys)
    → 1 ≤ count j (xs ++ ys)
    → size_i ≤ w
    → size_j ≤ w
    → (i * w + size_i ≤ n * w) × ((i * w + size_i ≤ j * w) ⊎ (j * w + size_j ≤ i * w))
slots_apart n w xs i ys j size_i size_j within other si sj = (
  slot_end i n w size_i (InRange-below n i (xs ++ i ∷ ys) within (omega (arith, held_once))) si,
  elim (order_cases i j) [
    | inl before ↦ inl (slot_end i j w size_i before si)
    | inr (inl after) ↦ inr (slot_end j i w size_j after sj)
    | inr (inr same) ↦ absurd (
        omega (
          arith,
          within i,
          count-range_from i 0 n,
          held_once,
          ap (λ (a : ℕ). count a (xs ++ ys)) same,
        ))
  ],
)
  where
    held_once : count i (xs ++ i ∷ ys) ≡ count i (xs ++ ys) + 1
    held_once = ground (arith, count-split i i xs ys)
