-- ===== src/Tests/Tasks.antt =====
-- A callable that fits the buffer of a task and one that does not, moved, called and destroyed.
use fiberexec.Base.{ℕ, ◌≡◌, ◌≢◌, ◌⊎◌, refl, true, List, [], ◌∷◌, Option, none, some}
use fiberexec.Base.Range.{count}
use fiberexec.Task.{Fn, Memory, construct, move_construct, assign, destroy, invoke}
use fiberexec.Task.Ops.{
  TaskOp, constructs, moves, assigns, destroys, invokes, step, steps, empty_memory, View,
  empty_view, expect, expects,
}
use fiberexec.Task.Once.{destroyed_once}

abbrev small : ℕ → Fn
small f = record { id = f; size = 24; align = 8; nothrow_move = true }

abbrev large : ℕ → Fn
large f = record { id = f; size = 200; align = 8; nothrow_move = true }

-- The tasks stand at 1, 2 and 3.
abbrev session : (first second : Fn) → List TaskOp
session first second =
    constructs 1 first
    ∷ moves 1 2
    ∷ invokes 2
    ∷ constructs 3 second
    ∷ assigns 3 2
    ∷ assigns 2 2
    ∷ invokes 2
    ∷ destroys 1
    ∷ []

abbrev view_or_empty : Option View → View
view_or_empty none = empty_view
view_or_empty (some v) = v

abbrev holding_second : View
unfolding expects expect
holding_second = view_or_empty (expects (session (small 7) (large 8)) empty_view)

abbrev holds_second : ℕ → Option ℕ
holds_second i = holding_second.held i

expected : expects (session (small 7) (large 8)) empty_view ≡ some holding_second
unfolding expects expect
expected = refl

destroyed_once_example :
    (m : Memory) × (steps (session (small 7) (large 8)) empty_memory ≡ some m)
    × (((j : ℕ) × (holds_second j ≡ some 7)
          × ((i : ℕ) → holds_second i ≡ some 7 → i ≡ j)
          × (count 7 m.destroyed ≡ 0))
        ⊎ (((i : ℕ) → holds_second i ≢ some 7) × (count 7 m.destroyed ≡ 1)))
destroyed_once_example = destroyed_once (session (small 7) (large 8)) 7 holding_second expected refl

-- What a run called and destroyed.
abbrev logs : Option Memory → List ℕ × List ℕ
logs none = ([], [])
logs (some m) = (m.invoked, m.destroyed)

logs-session : logs (steps (session (small 7) (large 8)) empty_memory) ≡ (7 ∷ 8 ∷ [], 7 ∷ [])
unfolding steps step construct move_construct assign destroy invoke
logs-session = refl
