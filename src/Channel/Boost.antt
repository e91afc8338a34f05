-- ===== src/Channel/Boost.antt =====
-- boost::fibers::buffered_channel, a parameter of the model: its operations, and what its documentation
-- says of them. A blocking operation is none where the calling fiber suspends.
use fiberexec.Base.{
  ℕ, ◌+◌, ◌<◌, ◌≤◌, ◌^◌, ◌≡◌, Bool, true, false, List, [], ◌∷◌, ◌++◌, Option, none, some, length,
}

pub data BoostStatus : Type 0 where
  success empty full closed timeout : BoostStatus

-- `make` takes the size of the ring, and `value_pop` throws where its value is none. A `pop` that
-- succeeds writes the value through its argument.
pub record BoostChannel (A : Type 0) : Type 1 where
  pub Chan : Type 0
  pub make : ℕ → Chan
  pub push : A → Chan → Option (BoostStatus × Chan)
  pub try_push : A → Chan → BoostStatus × Chan
  pub pop : Chan → Option (BoostStatus × Option A × Chan)
  pub value_pop : Chan → Option (Option A × Chan)
  pub try_pop : Chan → BoostStatus × Option A × Chan
  pub close : Chan → Chan
  pub is_closed : Chan → Bool

-- One channel after an operation on another: what it holds now, the ring and the close as before.
pub record IsAfter {Chan A : Type 0} (items : Chan → List A) (slots : Chan → ℕ)
    (is_closed : Chan → Bool) (c : Chan) (xs : List A) (c' : Chan) : Type 0 where
  pub holds : items c' ≡ xs
  pub slots_same : slots c' ≡ slots c
  pub closed_same : is_closed c' ≡ is_closed c

-- A first-in first-out ring in which one slot stays vacant. Its size is a power of two of at least 2: of
-- other sizes, for which the constructor throws, nothing is said.
pub record IsDocumented {A : Type 0} (C : BoostChannel A) : Type 1 where
  pub items : C.Chan → List A
  pub slots : C.Chan → ℕ
  pub make-items : (i : ℕ) → 1 ≤ i → items (C.make (2 ^ i)) ≡ []
  pub make-slots : (i : ℕ) → 1 ≤ i → slots (C.make (2 ^ i)) ≡ 2 ^ i
  pub make-open : (i : ℕ) → 1 ≤ i → C.is_closed (C.make (2 ^ i)) ≡ false
  pub push-room :
      (x : A) (c : C.Chan)
      → C.is_closed c ≡ false
      → length (items c) + 1 < slots c
      → (c' : C.Chan) × (C.push x c ≡ some (success, c'))
        × IsAfter items slots C.is_closed c (items c ++ (x ∷ [])) c'
  pub push-waits :
      (x : A) (c : C.Chan)
      → C.is_closed c ≡ false
      → slots c ≤ length (items c) + 1
      → C.push x c ≡ none
  pub try_push-room :
      (x : A) (c : C.Chan)
      → C.is_closed c ≡ false
      → length (items c) + 1 < slots c
      → (c' : C.Chan) × (C.try_push x c ≡ (success, c'))
        × IsAfter items slots C.is_closed c (items c ++ (x ∷ [])) c'
  pub pop-some :
      (x : A) (xs : List A) (c : C.Chan)
      → items c ≡ x ∷ xs
      → (c' : C.Chan) × (C.pop c ≡ some (success, some x, c'))
        × IsAfter items slots C.is_closed c xs c'
  pub pop-waits : (c : C.Chan) → items c ≡ [] → C.is_closed c ≡ false → C.pop c ≡ none
  pub pop-closed :
      (c : C.Chan) → items c ≡ [] → C.is_closed c ≡ true → C.pop c ≡ some (closed, none, c)
  pub close-closed : (c : C.Chan) → C.is_closed (C.close c) ≡ true
  pub close-items : (c : C.Chan) → items (C.close c) ≡ items c
  pub close-slots : (c : C.Chan) → slots (C.close c) ≡ slots c
