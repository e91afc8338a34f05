-- ===== src/Run.antt =====
-- include/fiberexec/run.hpp: the sender that runs a callable on a fiber of the pool, and completes by
-- what the callable does.
pub mod Cancellation
pub mod Sender
use fiberexec.Base.{ℤ, pos, eq_ℤ, Bool, true, false, Option, none, some, if◌then◌else◌}
use fiberexec.Runtime.Abi.{ecanceled}
use fiberexec.Runtime.Uring.{Kernel}
use fiberexec.Runtime.Thread.{
  Error, system_error, runtime_error, invalid_argument, Outcome, ok, err, fault, M, Thread,
}
use fiberexec.FiberOps.{StopToken, stop_possible, stop_requested, install_fiber_stop_token}

-- How the callable ends: by a value, an exception or undefined behaviour, or unwound by Boost.
pub data Ended (R : Type 0) : Type 0 where
  by : Outcome R → Ended R
  unwound : Ended R

abbrev pub Body : Type 0 → Type 0
Body R = Kernel → Thread → Ended R × Thread

abbrev pub body_of : {R : Type 0} → M R → Body R
body_of m k t = let (o, t') = m k t in (by o, t')

pub data Completion (R : Type 0) : Type 0 where
  set_value : R → Completion R
  set_stopped : Completion R
  set_error : Error → Completion R

-- What the task does: the completion of the receiver, and whether an exception leaves it after that.
pub data TaskEnd (R : Type 0) : Type 0 where
  completed : Completion R → TaskEnd R
  completed_and_thrown : Completion R → TaskEnd R
  undefined : TaskEnd R

-- The token of the fiber that `start` schedules: that of a fresh stop source, which the forwarder
-- stops once the receiver's token is stopped, or none where that cannot stop.
unfoldable pub fiber_token : StopToken → StopToken
fiber_token env_tok = if stop_possible env_tok then some (stop_requested env_tok) else none

unfoldable pub complete_by : {R : Type 0} → Ended R → TaskEnd R
complete_by (by (ok val)) = completed (set_value val)
complete_by unwound = completed_and_thrown set_stopped
complete_by (by (err (system_error code what))) =
    if eq_ℤ code (pos ecanceled)
    then completed set_stopped
    else completed (set_error (system_error code what))
complete_by (by (err (runtime_error what))) = completed (set_error (runtime_error what))
complete_by (by (err (invalid_argument what))) = completed (set_error (invalid_argument what))
complete_by (by fault) = undefined

-- The task that `start` posts, on the thread that runs it.
unfoldable pub run_task : {R : Type 0} → StopToken → Body R → Kernel → Thread → TaskEnd R × Thread
unfolding fiber_token complete_by install_fiber_stop_token
run_task env_tok fn k t =
    let (ended, t') = fn k (install_fiber_stop_token (fiber_token env_tok) k t).1 in
    (complete_by ended, t')
