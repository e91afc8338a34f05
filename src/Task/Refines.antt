-- ===== src/Task/Refines.antt =====
-- The memory does what the view says: each task has the callable that the view gives it, wherever it is
-- stored, and the heap holds an object exactly where a task points to it.
use fiberexec.Base.{
  ℕ, ◌==◌, ◌≡◌, refl, subst, ◌∙◌, List, [], ◌∷◌, none, some, arith, Bool-cases, Option-cases, inl,
  inr,
}
use fiberexec.Task.{
  Fn, bytes, Memory, M, update, construct, move_construct, assign, destroy, invoke,
}
use fiberexec.Task.Ops.{
  TaskOp, constructs, moves, assigns, destroys, invokes, step, steps, View, dropped, expect,
  expects,
}
use fiberexec.Task.Represents.{
  Represents, Refines, Shape, empty, in_buffer, on_heap, shape, ran, ran-Represents, invoke-ran,
}
use fiberexec.Task.Lifetimes.{destroy-Refines, cleared, take-Refines, construct-Refines}

vacant : (m : Memory) (v : View) (i : ℕ) → Represents m v → v.held i ≡ none → m.vtable i ≡ none
vacant m v i r e = of_shape (shape r i)
  where
    of_shape : Shape m i (v.held i) → m.vtable i ≡ none
    of_shape (empty h t) = t
    of_shape (in_buffer f h t c) = absurd (ground arith)
    of_shape (on_heap f p h t c a) = absurd (ground arith)

-- The same result, once the view is known.
to_view : (f : M (Unit {0})) (m : Memory) {v v' : View} → v ≡ v' → Refines f m v → Refines f m v'
to_view f m e = subst (λ (w : View). Refines f m w) e

module _ (m : Memory) (v v' : View) (r : Represents m v) where
  invoke-Refines : (i : ℕ) → expect (invokes i) v ≡ some v' → Refines (invoke i) m v'
  unfolding expect
  invoke-Refines i e = elim (Option-cases (v.held i)) [
    | inl h ↦ absurd (ground arith)
    | inr (f, h) ↦
        to_view (invoke i) m (ground arith)
          (ran m f, invoke-ran m i f (subst (Shape m i) h (shape r i)), ran-Represents m v f r)
  ]

  construct-expected :
      (this : ℕ) (f : Fn) → expect (constructs this f) v ≡ some v' → Refines (construct this f) m v'
  unfolding expect
  construct-expected this f e = elim (Option-cases (v.held this)) [
    | inl h ↦
        to_view (construct this f) m (ground arith)
          (construct-Refines m v this f r h (vacant m v this r h))
    | inr (g, h) ↦ absurd (ground arith)
  ]

  move-Refines :
      (other this : ℕ)
      → expect (moves other this) v ≡ some v'
      → Refines (move_construct other this) m v'
  unfolding expect move_construct
  move-Refines other this e = elim (Option-cases (v.held this)) [
    | inr (g, h) ↦ absurd (ground arith)
    | inl h ↦ elim (Bool-cases (this == other)) [
      | inl same ↦ absurd (ground arith)
      | inr apart ↦ to_view (move_construct other this) m (ground arith) (
          take-Refines (record m { buf = update m.buf this bytes }) v other this
            (cleared m v this bytes r h) (ground arith) (vacant m v this r h))
    ]
  ]

  assign-Refines :
      (other this : ℕ) → expect (assigns other this) v ≡ some v' → Refines (assign other this) m v'
  unfolding expect assign
  assign-Refines other this e = elim (Bool-cases (this == other)) [
    | inl same ↦ rw same (m, refl, subst (Represents m) (ground arith) r)
    | inr apart ↦
        let (m1, ran, r1) = destroy-Refines m v this r in
        let (m2, took, r2) =
          take-Refines m1 (dropped this v) other this r1 (ground arith)
            (vacant m1 (dropped this v) this r1 (ground arith)) in
        (m2, ground (arith, ran, took), subst (Represents m2) (ground arith) r2)
  ]

step-Refines :
    (op : TaskOp) (m : Memory) (v v' : View)
    → Represents m v
    → expect op v ≡ some v'
    → Refines (step op) m v'
unfolding step expect
step-Refines (constructs this f) m v v' r e = construct-expected m v v' r this f e
step-Refines (moves other this) m v v' r e = move-Refines m v v' r other this e
step-Refines (assigns other this) m v v' r e = assign-Refines m v v' r other this e
step-Refines (invokes this) m v v' r e = invoke-Refines m v v' r this e
step-Refines (destroys this) m v v' r e =
    to_view (destroy this) m (ground arith) (destroy-Refines m v this r)

steps-cons :
    (op : TaskOp) (ops : List TaskOp) (m m' : Memory)
    → step op m ≡ some (tt, m')
    → steps (op ∷ ops) m ≡ steps ops m'
unfolding steps
steps-cons op ops m m' f = ground arith

-- Any sequence of operations that keeps the rules is defined in a memory that is as the view says, and
-- leaves one that is as the view expects.
pub steps-Refines :
    (ops : List TaskOp) (m : Memory) (v v' : View)
    → Represents m v
    → expects ops v ≡ some v'
    → (m' : Memory) × (steps ops m ≡ some m') × Represents m' v'
unfolding steps expects
steps-Refines [] m v v' r e = (m, refl, subst (Represents m) (ground arith) r)
steps-Refines (op ∷ ops) m v v' r e = elim (Option-cases (expect op v)) [
  | inl h ↦ absurd (ground arith)
  | inr (v1, h) ↦
      let (m1, f, r1) = step-Refines op m v v1 r h in
      let (m2, g, r2) = steps-Refines ops m1 v1 v' r1 (ground arith) in
      (m2, steps-cons op ops m m1 f ∙ g, r2)
]
