-- ===== src/Task/Once.antt =====
-- A callable that is put into a task is in one task until it is destroyed, once.
use fiberexec.Base.{
  ℕ, zero, suc, ◌==◌, ◌+◌, ◌≡◌, ◌≢◌, refl, ap, subst, ◌∙◌, ◌⊎◌, inl, inr, List, [], ◌∷◌, ◌++◌, none,
  some, if◌then◌else◌, arith, Option-cases, Bool-cases,
}
use fiberexec.Base.Range.{count, count-append}
use fiberexec.Task.{Fn, Memory, update}
use fiberexec.Task.Ops.{
  TaskOp, constructs, moves, assigns, destroys, invokes, steps, empty_memory, View, empty_view,
  listed, passed, dropped, expect, expects,
}
use fiberexec.Task.Erasure.{steps_lem}

abbrev makes : ℕ → TaskOp → ℕ
makes f (constructs this g) = if f == g.id then 1 else 0
makes f (moves other this) = 0
makes f (assigns other this) = 0
makes f (destroys this) = 0
makes f (invokes this) = 0

-- How many tasks are constructed from a callable.
abbrev pub made : ℕ → List TaskOp → ℕ
made f [] = 0
made f (op ∷ ops) = makes f op + made f ops

-- Nowhere yet, in one task, or destroyed.
data Fate (f : ℕ) (v : View) (n : ℕ) : Type 0 where
  unmade : n ≡ 0 → count f v.destroyed ≡ 0 → ((i : ℕ) → v.held i ≢ some f) → Fate f v n
  alive :
      (j : ℕ)
      → n ≡ 1
      → count f v.destroyed ≡ 0
      → v.held j ≡ some f
      → ((i : ℕ) → v.held i ≡ some f → i ≡ j)
      → Fate f v n
  ended : n ≡ 1 → count f v.destroyed ≡ 1 → ((i : ℕ) → v.held i ≢ some f) → Fate f v n

dropped-count :
    (f this : ℕ) (v : View)
    → count f (dropped this v).destroyed ≡ count f v.destroyed + count f (listed (v.held this))
dropped-count f this v = count-append f v.destroyed (listed (v.held this))

module _ (f : ℕ) (v : View) (n : ℕ) where
  dropped-Fate : (this : ℕ) → Fate f v n → Fate f (dropped this v) n
  dropped-Fate this (unmade e c h) =
      unmade e (ground (arith, dropped-count f this v, h this)) (λ i w. ground (arith, h i))
  dropped-Fate this (ended e c h) =
      ended e (ground (arith, dropped-count f this v, h this)) (λ i w. ground (arith, h i))
  dropped-Fate this (alive j e c w h) = elim (Bool-cases (this == j)) [
    | inl s ↦ ended e (ground (arith, dropped-count f this v, w)) (λ i x. ground (arith, h i))
    | inr a ↦
        alive j e (ground (arith, dropped-count f this v, h this)) (ground arith)
          (λ i x. ground (arith, h i))
  ]

  passed-Fate :
      (other this : ℕ)
      → v.held this ≡ none
      → this ≢ other
      → Fate f v n
      → Fate f (passed other this v) n
  passed-Fate other this vacant apart (unmade e c h) =
      unmade e c (λ i w. ground (arith, h i, h other))
  passed-Fate other this vacant apart (ended e c h) =
      ended e c (λ i w. ground (arith, h i, h other))
  passed-Fate other this vacant apart (alive j e c w h) = elim (Bool-cases (other == j)) [
    | inl s ↦ alive this e c (ground arith) (λ i x. ground (arith, h i, h other))
    | inr a ↦ alive j e c (ground arith) (λ i x. ground (arith, h i, h other))
  ]

  made-Fate :
      (this : ℕ) (g : Fn)
      → v.held this ≡ none
      → n + makes f (constructs this g) ≡ 1 ⊎ (n + makes f (constructs this g) ≡ 0)
      → Fate f v n
      → Fate f
          (record v { held = update v.held this (some g.id) })
          (n + makes f (constructs this g))
  made-Fate this g vacant once (unmade e c h) = elim (Bool-cases (f == g.id)) [
    | inl s ↦ alive this (ground arith) c (ground arith) (λ i x. ground (arith, h i))
    | inr a ↦ unmade (ground arith) c (λ i x. ground (arith, h i))
  ]
  made-Fate this g vacant once (ended e c h) = ended (ground arith) c (λ i x. ground (arith, h i))
  made-Fate this g vacant once (alive j e c w h) =
      alive j (ground arith) c (ground arith) (λ i x. ground (arith, h i))

as_view : (f : ℕ) (v v' : View) (n m : ℕ) → v ≡ v' → n ≡ m → Fate f v n → Fate f v' m
as_view f v v' n m e g h = subst (λ (k : ℕ). Fate f v' k) g (subst (λ (w : View). Fate f w n) e h)

-- A call changes neither what is held nor what is destroyed.
called-Fate :
    (f g : ℕ) (v : View) (n : ℕ)
    → Fate f v n
    → Fate f (record v { invoked = v.invoked ++ (g ∷ []) }) n
called-Fate f g v n (unmade e c h) = unmade e c h
called-Fate f g v n (alive j e c w h) = alive j e c w h
called-Fate f g v n (ended e c h) = ended e c h

module _ (f : ℕ) (v v' : View) (n : ℕ) (h : Fate f v n) where
  step-Fate :
      (op : TaskOp)
      → expect op v ≡ some v'
      → n + makes f op ≡ 1 ⊎ (n + makes f op ≡ 0)
      → Fate f v' (n + makes f op)
  unfolding expect
  step-Fate (constructs this g) e once = elim (Option-cases (v.held this)) [
    | inl w ↦ as_view f _ v' _ _ (ground arith) refl (made-Fate f v n this g w once h)
    | inr (g', w) ↦ absurd (ground arith)
  ]
  step-Fate (moves other this) e once = elim (Option-cases (v.held this)) [
    | inr (g', w) ↦ absurd (ground arith)
    | inl w ↦ elim (Bool-cases (this == other)) [
      | inl same ↦ absurd (ground arith)
      | inr apart ↦
          as_view f (passed other this v) v' n _ (ground arith) (omega arith)
            (passed-Fate f v n other this w (ground arith) h)
    ]
  ]
  step-Fate (assigns other this) e once = elim (Bool-cases (this == other)) [
    | inl same ↦ as_view f v v' n _ (ground arith) (omega arith) h
    | inr apart ↦
        as_view f (passed other this (dropped this v)) v' n _ (ground arith) (omega arith) (
          passed-Fate f (dropped this v) n other this (ground arith) (ground arith)
            (dropped-Fate f v n this h))
  ]
  step-Fate (destroys this) e once =
      as_view f (dropped this v) v' n _ (ground arith) (omega arith) (dropped-Fate f v n this h)
  step-Fate (invokes this) e once = elim (Option-cases (v.held this)) [
    | inl w ↦ absurd (ground arith)
    | inr (g, w) ↦
        as_view f (record v { invoked = v.invoked ++ (g ∷ []) }) v' n _ (ground arith) (omega arith)
          (called-Fate f g v n h)
  ]

at_most_one : (k n : ℕ) → k + n ≡ 1 → k ≡ 1 ⊎ (k ≡ 0)
at_most_one zero n e = inr refl
at_most_one (suc k) n e = inl (omega arith)

steps-Fate :
    (ops : List TaskOp) (f : ℕ) (v v' : View) (n : ℕ)
    → expects ops v ≡ some v'
    → n + made f ops ≡ 1
    → Fate f v n
    → Fate f v' (n + made f ops)
unfolding expects
steps-Fate [] f v v' n e once h = as_view f v v' n _ (ground arith) (omega arith) h
steps-Fate (op ∷ ops) f v v' n e once h = elim (Option-cases (expect op v)) [
  | inl w ↦ absurd (ground arith)
  | inr (v1, w) ↦ as_view f v' v' (n + makes f op + made f ops) _ refl (omega arith) (
      steps-Fate ops f v1 v' (n + makes f op) (ground arith) (omega arith)
        (step-Fate f v v1 n h op w (at_most_one (n + makes f op) (made f ops) (omega arith))))
]

-- A callable that one task is constructed from, whatever sequence of operations follows that keeps the
-- rules: either it is in exactly one task and was not destroyed, or it is in none and was destroyed
-- exactly once. Moves do not end it.
pub destroyed_once :
    (ops : List TaskOp) (f : ℕ) (v : View)
    → expects ops empty_view ≡ some v
    → made f ops ≡ 1
    → (m : Memory) × (steps ops empty_memory ≡ some m)
      × (((j : ℕ) × (v.held j ≡ some f)
            × ((i : ℕ) → v.held i ≡ some f → i ≡ j)
            × (count f m.destroyed ≡ 0))
          ⊎ (((i : ℕ) → v.held i ≢ some f) × (count f m.destroyed ≡ 1)))
destroyed_once ops f v e once =
    let (m, ran, called, destroyed, h, l) = steps_lem ops v e in
    (
      m,
      ran,
      outcome m destroyed
          (steps-Fate ops f empty_view v 0 e (omega arith) (unmade refl refl (λ i. ground arith))),
    )
  where
    outcome :
        (m : Memory)
        → m.destroyed ≡ v.destroyed
        → Fate f v (0 + made f ops)
        → ((j : ℕ) × (v.held j ≡ some f)
            × ((i : ℕ) → v.held i ≡ some f → i ≡ j)
            × (count f m.destroyed ≡ 0))
          ⊎ (((i : ℕ) → v.held i ≢ some f) × (count f m.destroyed ≡ 1))
    outcome m d (unmade z c h) = absurd (omega arith)
    outcome m d (alive j o c w h) = inl (j, w, h, ap (count f) d ∙ c)
    outcome m d (ended o c h) = inr (h, ap (count f) d ∙ c)
