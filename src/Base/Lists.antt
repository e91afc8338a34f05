-- ===== src/Base/Lists.antt =====
-- Lists measured and indexed by native numbers, under the library's names.
use Prim.Native.Nat.{ℕ, zero, suc, ◌+◌, ◌<◌}
use mathlib.Core.Path.{◌≡◌, refl, ap}
use mathlib.Core.Logic.{◌≢◌}
use mathlib.Core.Bool.{Bool, true, false}
use mathlib.Core.List.{List, [], ◌∷◌, ◌++◌}
use mathlib.Core.Option.{Option, none, some}
use native.Mathlib.Omega.{arith}

module _ {ℓ} {A : Type ℓ} where
  abbrev pub length : List A → ℕ
  length [] = 0
  length (x ∷ xs) = suc (length xs)

  abbrev pub is_empty : List A → Bool
  is_empty [] = true
  is_empty (x ∷ xs) = false

  abbrev pub get_elem? : List A → ℕ → Option A
  get_elem? [] i = none
  get_elem? (x ∷ xs) zero = some x
  get_elem? (x ∷ xs) (suc i) = get_elem? xs i

  -- A write out of bounds changes nothing.
  abbrev pub set : List A → ℕ → A → List A
  set [] i v = []
  set (x ∷ xs) zero v = v ∷ xs
  set (x ∷ xs) (suc i) v = x ∷ set xs i v

  -- `f` applied to the element at an index.
  abbrev pub modify : List A → ℕ → (A → A) → List A
  modify [] i f = []
  modify (x ∷ xs) zero f = f x ∷ xs
  modify (x ∷ xs) (suc i) f = x ∷ modify xs i f

  pub length-append : (xs ys : List A) → length (xs ++ ys) ≡ length xs + length ys
  length-append [] ys = omega arith
  length-append (x ∷ xs) ys = omega (arith, length-append xs ys)

  -- The element after a prefix.
  pub modify-append :
      (xs : List A) (x : A) (f : A → A) → modify (xs ++ (x ∷ [])) (length xs) f ≡ xs ++ (f x ∷ [])
  modify-append [] x f = refl
  modify-append (y ∷ xs) x f = ap (◌∷◌ y) (modify-append xs x f)

abbrev pub All {ℓ κ} : {A : Type ℓ} → (A → Type κ) → List A → Type κ
All P [] = Unit
All P (x ∷ xs) = P x × All P xs

module _ {ℓ} {A : Type ℓ} where
  pub modify-append_cons :
      (xs : List A) (x : A) (ys : List A) (f : A → A)
      → modify (xs ++ x ∷ ys) (length xs) f ≡ xs ++ f x ∷ ys
  modify-append_cons [] x ys f = refl
  modify-append_cons (y ∷ xs) x ys f = ap (◌∷◌ y) (modify-append_cons xs x ys f)

  -- A prefix that grows by one element.
  pub append-snoc : (xs : List A) (x : A) (ys : List A) → (xs ++ x ∷ []) ++ ys ≡ xs ++ x ∷ ys
  append-snoc [] x ys = refl
  append-snoc (y ∷ xs) x ys = ap (◌∷◌ y) (append-snoc xs x ys)

  pub length-snoc : (xs : List A) (x : A) → length (xs ++ x ∷ []) ≡ suc (length xs)
  length-snoc xs x = omega (arith, length-append xs (x ∷ []))

  pub length-set : (xs : List A) (i : ℕ) (v : A) → length (set xs i v) ≡ length xs
  length-set [] i v = refl
  length-set (x ∷ xs) zero v = refl
  length-set (x ∷ xs) (suc i) v = omega (arith, length-set xs i v)

  pub get_elem?-set :
      (xs : List A) (i : ℕ) (v : A) → i < length xs → get_elem? (set xs i v) i ≡ some v
  get_elem?-set [] i v h = absurd (omega arith)
  get_elem?-set (x ∷ xs) zero v h = refl
  get_elem?-set (x ∷ xs) (suc i) v h = get_elem?-set xs i v (omega arith)

  pub get_elem?-set_other :
      (xs : List A) (i j : ℕ) (v : A) → j ≢ i → get_elem? (set xs i v) j ≡ get_elem? xs j
  get_elem?-set_other [] i j v h = refl
  get_elem?-set_other (x ∷ xs) zero zero v h = absurd (h refl)
  get_elem?-set_other (x ∷ xs) zero (suc j) v h = refl
  get_elem?-set_other (x ∷ xs) (suc i) zero v h = refl
  get_elem?-set_other (x ∷ xs) (suc i) (suc j) v h =
      get_elem?-set_other xs i j v (λ e. h (ap suc e))

-- An element replaced, the others weakened.
module _ {ℓ κ} {A : Type ℓ} where
  pub All-mid : (P : A → Type κ) (xs : List A) (x : A) (ys : List A) → All P (xs ++ x ∷ ys) → P x
  All-mid P [] x ys h = h.0
  All-mid P (z ∷ xs) x ys h = All-mid P xs x ys h.1

  pub All-map : (P Q : A → Type κ) (xs : List A) → ((x : A) → P x → Q x) → All P xs → All Q xs
  All-map P Q [] f h = tt
  All-map P Q (x ∷ xs) f h = (f x h.0, All-map P Q xs f h.1)

  pub All-replace :
      (P Q : A → Type κ) (xs : List A) (x y : A) (ys : List A)
      → ((z : A) → P z → Q z)
      → Q y
      → All P (xs ++ x ∷ ys)
      → All Q (xs ++ y ∷ ys)
  All-replace P Q [] x y ys f q h = (q, All-map P Q ys f h.1)
  All-replace P Q (z ∷ xs) x y ys f q h = (f z h.0, All-replace P Q xs x y ys f q h.1)

  pub All-snoc : (P : A → Type κ) (xs : List A) (x : A) → All P xs → P x → All P (xs ++ (x ∷ []))
  All-snoc P [] x h p = (p, tt)
  All-snoc P (z ∷ xs) x h p = (h.0, All-snoc P xs x h.1 p)

  pub All-none : (P : A → Type κ) (xs : List A) → xs ≡ [] → All P xs
  All-none P [] e = tt
  All-none P (x ∷ xs) e = absurd (ground arith)
