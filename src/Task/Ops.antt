-- ===== src/Task/Ops.antt =====
-- Sequences of operations on tasks, in the memory of the code, and as each task having a callable or
-- none.
use fiberexec.Base.{ℕ, ◌==◌, List, [], ◌∷◌, ◌++◌, Option, none, some, if◌then◌else◌}
use fiberexec.Task.{
  Fn, bytes, Memory, M, update, construct, move_construct, assign, destroy, invoke,
}

pub data TaskOp : Type 0 where
  constructs : (this : ℕ) → Fn → TaskOp
  moves assigns : (other this : ℕ) → TaskOp
  destroys invokes : (this : ℕ) → TaskOp

unfoldable pub step : TaskOp → M (Unit {0})
step (constructs this f) = construct this f
step (moves other this) = move_construct other this
step (assigns other this) = assign other this
step (destroys this) = destroy this
step (invokes this) = invoke this

unfoldable pub steps : List TaskOp → Memory → Option Memory
steps [] s = some s
steps (op ∷ ops) s = elim (step op s) [ none ↦ none | some (_, s') ↦ steps ops s' ]

abbrev pub empty_memory : Memory
empty_memory = record {
  buf = λ i. bytes;
  vtable = λ i. none;
  allocated = λ p. none;
  brk = 0;
  invoked = [];
  destroyed = [];
}

-- What a caller knows: which callable each task has.
pub record View : Type 0 where
  pub held : ℕ → Option ℕ
  pub invoked : List ℕ
  pub destroyed : List ℕ

abbrev pub empty_view : View
empty_view = record { held = λ i. none; invoked = []; destroyed = [] }

abbrev pub listed : Option ℕ → List ℕ
listed none = []
listed (some f) = f ∷ []

abbrev pub passed : (other this : ℕ) → View → View
passed other this v = record v { held = update (update v.held this (v.held other)) other none }

abbrev pub dropped : ℕ → View → View
dropped this v = record v {
  held = update v.held this none;
  destroyed = v.destroyed ++ listed (v.held this);
}

-- None where the caller breaks a rule: a constructor where a task has a callable already, or a call of
-- a task that has none.
unfoldable pub expect : TaskOp → View → Option View
expect (constructs this f) v = elim (v.held this) [
  | none ↦ some (record v { held = update v.held this (some f.id) })
  | some g ↦ none
]
expect (moves other this) v = elim (v.held this) [
  | none ↦ (if this == other then none else some (passed other this v))
  | some g ↦ none
]
expect (assigns other this) v =
    if this == other then some v else some (passed other this (dropped this v))
expect (destroys this) v = some (dropped this v)
expect (invokes this) v = elim (v.held this) [
  | none ↦ none
  | some f ↦ some (record v { invoked = v.invoked ++ (f ∷ []) })
]

unfoldable pub expects : List TaskOp → View → Option View
expects [] v = some v
expects (op ∷ ops) v = elim (expect op v) [ none ↦ none | some v' ↦ expects ops v' ]
