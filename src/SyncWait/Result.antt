-- ===== src/SyncWait/Result.antt =====
-- What a fiber that waits for a run gets.
use fiberexec.Base.{ℤ, pos, eq_ℤ, ◌≡◌, refl, ap, true, Option, none, some, arith, if◌then◌else◌}
use fiberexec.Runtime.Abi.{ecanceled}
use fiberexec.Runtime.Uring.{Kernel}
use fiberexec.Runtime.Thread.{
  Thread, system_error, runtime_error, invalid_argument, Outcome, ok, err, fault, M,
}
use fiberexec.FiberOps.{StopToken, install_fiber_stop_token}
use fiberexec.AsyncIo.Request.{Request, perform}
use fiberexec.AsyncIo.Refusal.{checks_stop}
use fiberexec.Run.{
  Ended, by, unwound, Body, body_of, TaskEnd, completed, completed_and_thrown, undefined, run_task,
  fiber_token, complete_by, Completion,
}
use fiberexec.Run.Cancellation.{run-stopped}
use fiberexec.SyncWait.{
  SyncState, set_value, set_error, set_stopped, exception_ptr, sync_wait, wait_on, new_state,
}

-- The receiver's call for a completion.
abbrev receive : {R : Type 0} → Completion R → SyncState R → SyncState R
receive (Completion.set_value v) = set_value (ok v)
receive Completion.set_stopped = set_stopped
receive (Completion.set_error e) = set_error (exception_ptr e)

abbrev pub deliver : {R : Type 0} → TaskEnd R → SyncState R → SyncState R
deliver (completed c) = receive c
deliver (completed_and_thrown c) = receive c
deliver undefined = λ s. s

-- A run as a sender: its task runs on the thread `u`.
abbrev pub run_sender : {R : Type 0} → StopToken → Body R → Thread → M (SyncState R → SyncState R)
run_sender tok fn u k t = (ok (deliver (run_task tok fn k u).0), t)

-- What the waiter should get: the value, nullopt after a cancellation, any other exception rethrown;
-- nothing where the callable's behaviour is undefined.
abbrev pub waited : {R : Type 0} → Ended R → Outcome (Option (Option R))
waited (by (ok v)) = ok (some (some v))
waited unwound = ok (some none)
waited (by (err (system_error code what))) =
    if eq_ℤ code (pos ecanceled) then ok (some none) else err (system_error code what)
waited (by (err e)) = err e
waited (by fault) = ok none

delivered :
    {R : Type 0} (x : Ended R) (k : Kernel) (t : Thread)
    → (wait_on (deliver (complete_by x) new_state) k t).0 ≡ waited x
unfolding wait_on new_state complete_by set_value set_error set_stopped
delivered (by (ok v)) k t = refl
delivered (by (err (system_error code what))) k t = ground arith
delivered (by (err (runtime_error what))) k t = refl
delivered (by (err (invalid_argument what))) k t = refl
delivered (by fault) k t = refl
delivered unwound k t = refl

-- On a worker, waiting for the run of any callable gives the callable's value, nullopt if a
-- cancellation ended it, and else rethrows its exception, whichever thread ran it.
pub sync_wait_run :
    {R : Type 0} (tok : StopToken) (fn : Body R) (k : Kernel) (t u : Thread)
    → t.has_ring ≡ true
    → (sync_wait (run_sender tok fn u) k t).0
      ≡ waited (fn k (install_fiber_stop_token (fiber_token tok) k u).1).0
unfolding sync_wait run_task
sync_wait_run tok fn k t u on = rw on (
    delivered (fn k (install_fiber_stop_token (fiber_token tok) k u).1).0 k
      (record t { has_ring = true }))

-- On a worker, waiting for a run whose token was stopped before, and whose callable is an operation
-- (any but `close`), gives nullopt.
pub sync_wait-stopped :
    (q : Request) (timeout : Option ℤ) (k : Kernel) (t u : Thread)
    → t.has_ring ≡ true
    → u.has_ring ≡ true
    → checks_stop q ≡ true
    → (sync_wait (run_sender (some true) (body_of (perform q timeout)) u) k t).0 ≡ ok (some none)
unfolding sync_wait set_stopped wait_on new_state
sync_wait-stopped q timeout k t u on on_u checked = rw on (
    ap
      (λ (o : TaskEnd ℤ × Thread).
        (wait_on (deliver o.0 new_state) k (record t { has_ring = true })).0)
      (run-stopped q timeout k u on_u checked))
