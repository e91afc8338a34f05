-- ===== src/Task/Erasure.antt =====
-- What a user of tasks sees: where a callable is stored makes no difference, and nothing is leaked.
use fiberexec.Base.{ℕ, ◌≡◌, refl, List, none, some, is_some, arith, true, inl, inr, Option-cases}
use fiberexec.Task.{Memory, has_callable}
use fiberexec.Task.Ops.{
  TaskOp, constructs, moves, assigns, destroys, invokes, steps, empty_memory, View, empty_view,
  expects,
}
use fiberexec.Task.Represents.{Represents, Shape, empty, in_buffer, on_heap, shape, owned}
use fiberexec.Task.Refines.{steps-Refines}

empty-Represents : Represents empty_memory empty_view
empty-Represents = record {
  holds = λ i. refl;
  owner = λ p. p;
  owns = λ i p h. ground arith;
  no_leak = λ p o h. ground arith;
  fresh = λ p h. refl;
  invoked = refl;
  destroyed = refl;
}

has_callable_lem :
    (m : Memory) (v : View) → Represents m v → (i : ℕ) → has_callable i m ≡ is_some (v.held i)
unfolding has_callable
has_callable_lem m v r i = of_shape (shape r i)
  where
    of_shape : Shape m i (v.held i) → has_callable i m ≡ is_some (v.held i)
    of_shape (empty h t) = ground arith
    of_shape (in_buffer f h t b) = ground arith
    of_shape (on_heap f p h t b a) = ground arith

nothing_left :
    (m : Memory) (v : View)
    → Represents m v
    → ((i : ℕ) → v.held i ≡ none)
    → (p : ℕ) → m.allocated p ≡ none
nothing_left m v r all p = elim (Option-cases (m.allocated p)) [
  | inl e ↦ e
  | inr (o, e) ↦ absurd (of_shape (shape r (r.owner p)) (r.no_leak p o e))
]
  where
    of_shape : Shape m (r.owner p) (v.held (r.owner p)) → owned m (r.owner p) ≡ some p → ⊥
    of_shape (empty h t) w = ground arith
    of_shape (in_buffer f h t b) w = ground (arith, all (r.owner p))
    of_shape (on_heap f q h t b a) w = ground (arith, all (r.owner p))

pub steps_lem :
    (ops : List TaskOp) (v : View)
    → expects ops empty_view ≡ some v
    → (m : Memory) × (steps ops empty_memory ≡ some m)
      × (m.invoked ≡ v.invoked)
      × (m.destroyed ≡ v.destroyed)
      × ((i : ℕ) → has_callable i m ≡ is_some (v.held i))
      × (((i : ℕ) → v.held i ≡ none) → (p : ℕ) → m.allocated p ≡ none)
steps_lem ops v e =
    let (m, ran, r) = steps-Refines ops empty_memory empty_view v empty-Represents e in
    (m, ran, r.invoked, r.destroyed, has_callable_lem m v r, nothing_left m v r)

-- An operation without the size, the alignment and the move constructor of the callable's type.
abbrev pub bare : TaskOp → TaskOp
bare (constructs this f) =
    constructs this (record { id = f.id; size = 0; align = 1; nothrow_move = true })
bare (moves other this) = moves other this
bare (assigns other this) = assigns other this
bare (destroys this) = destroys this
bare (invokes this) = invokes this
