-- ===== src/SyncWait.antt =====
-- include/fiberexec/sync_wait.hpp: a fiber that starts a sender and waits for its completion.
pub mod Result
pub mod Handshake
use fiberexec.Base.{ℤ, Bool, true, false, not, Option, none, some, if◌then◌else◌}
use fiberexec.Runtime.Thread.{
  Error, system_error, runtime_error, Outcome, M, ◌>>=◌, ◌>>◌, pure, throw, when,
}
use fiberexec.FiberOps.{current_ring}

-- `fiber_sync_state`.
pub record SyncState (V : Type 0) : Type 0 where
  pub value : Option V
  pub error : Option Error
  pub done : Bool

unfoldable pub new_state : {V : Type 0} → SyncState V
new_state = record { value = none; error = none; done = false }

-- The argument of set_error: an exception, an error code (kept as a system_error), or another value
-- (thrown as it is; here an exception too).
pub data ErrorArgument : Type 0 where
  exception_ptr other : Error → ErrorArgument
  error_code : ℤ → ErrorArgument

-- The argument of set_value: the tuple, or the exception that building it throws.
unfoldable pub set_value : {V : Type 0} → Outcome V → SyncState V → SyncState V
set_value (Outcome.ok v) s = record s { value = some v; done = true }
set_value (Outcome.err e) s = record s { error = some e; done = true }
set_value Outcome.fault s = s

unfoldable pub set_error : {V : Type 0} → ErrorArgument → SyncState V → SyncState V
set_error (exception_ptr e) s = record s { error = some e; done = true }
set_error (error_code code) s = record s { error = some (system_error code ""); done = true }
set_error (other e) s = record s { error = some e; done = true }

unfoldable pub set_stopped : {V : Type 0} → SyncState V → SyncState V
set_stopped s = record s { done = true }

-- Where the wait is over: the tuple, or none after a stop. None of that if the wait does not end.
unfoldable pub wait_on : {V : Type 0} → SyncState V → M (Option (Option V))
wait_on s =
    if not s.done
    then pure none
    else (elim s.error [ none ↦ pure (some s.value) | some e ↦ throw e ])

-- `sender` is what the started operation does to the state.
unfoldable pub sync_wait : {V : Type 0} → M (SyncState V → SyncState V) → M (Option (Option V))
unfolding current_ring new_state wait_on
sync_wait sender = do
  ring ← current_ring
  when (not ring) (throw (runtime_error "sync_wait called outside of a fiberexec fiber"))
  complete ← sender
  wait_on (complete new_state)
