-- ===== src/FiberBulk.antt =====
-- include/fiberexec/detail/fiber_bulk.hpp: the bulk sender, which runs one fiber for each index and
-- completes once. The fibers run on several threads: each advances by the atomic operations of its
-- lambda, in any interleaving.
pub mod System
pub mod Once
pub mod Advance
pub mod Errors
pub mod Progress
use fiberexec.Base.{
  ℕ, suc, ◌+◌, ◌-◌, ◌==◌, Bool, true, false, List, [], ◌∷◌, ◌++◌, map, Option, none, some,
  if◌then◌else◌,
}
use fiberexec.Base.Range.{range}
use fiberexec.FiberOps.{StopToken}

-- An exception_ptr is a number that tells exceptions apart.
abbrev pub Exception : Type 0
Exception = ℕ

pub data Completion : Type 0 where
  set_value set_stopped : Completion
  set_error : Option Exception → Completion

-- `fiber_bulk_shared`, and the completions that its receiver got, oldest first.
pub record Shared : Type 0 where
  pub remaining : ℕ
  pub error : Option Exception
  pub has_error : Bool
  pub completions : List Completion

unfoldable pub new_shared : ℕ → Shared
new_shared n = record { remaining = n; error = none; has_error = false; completions = [] }

-- What the lambda of one fiber captures.
pub record BulkTask : Type 0 where
  pub index : ℕ
  pub tok : StopToken

-- How far a fiber is: before `fun`, with a caught exception, after the exchange of `has_error`, before
-- the decrement, after a decrement to 0, and at its end.
pub data Phase : Type 0 where
  posted ran last finished : Phase
  caught won : Exception → Phase

complete : Completion → Shared → Shared
complete c s = record s { completions = s.completions ++ (c ∷ []) }

-- The next atomic operation of a fiber. `fun` is the exception that a call throws, if it throws, on
-- a fiber with the token installed.
unfoldable pub advance :
    (ℕ → ℕ → StopToken → Option Exception) → BulkTask → Phase → Shared → Phase × Shared
unfolding complete
advance fun t posted s =
    (elim (fun t.index (t.index + 1) t.tok) [ none ↦ ran | some e ↦ caught e ], s)
advance fun t (caught e) s =
    if s.has_error then (ran, s) else (won e, record s { has_error = true })
advance fun t (won e) s = (ran, record s { error = some e })
advance fun t ran s =
    (if s.remaining - 1 == 0 then last else finished, record s { remaining = s.remaining - 1 })
advance fun t last s = (finished, complete (if s.has_error then set_error s.error else set_value) s)
advance fun t finished s = (finished, s)

-- `fiber_bulk_receiver::set_value`: what it does at once, and the tasks that it posts, in order.
unfoldable pub receive_value : ℕ → StopToken → Shared → Shared × List BulkTask
unfolding complete
receive_value n tok s =
    if n == 0
    then (complete set_value s, [])
    else (s, map (λ i. record { index = i; tok = tok }) (range n))

unfoldable pub receive_error : Exception → Shared → Shared
unfolding complete
receive_error e s = complete (set_error (some e)) s

unfoldable pub receive_stopped : Shared → Shared
unfolding complete
receive_stopped s = complete set_stopped s
