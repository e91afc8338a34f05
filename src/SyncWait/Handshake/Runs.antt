-- ===== src/SyncWait/Handshake/Runs.antt =====
-- A fiber that waits for a run, sync_wait(run(scheduler, callable)): include/fiberexec/run.hpp and
-- sync_wait.hpp together.
use fiberexec.Base.{
  ℕ, suc, ◌≡◌, refl, sym, ap, ◌∙◌, Option, none, some, arith, ◌++◌, [], ◌∷◌, eq_ℤ, pos, Bool-cases,
  inl, inr,
}
use fiberexec.Runtime.Abi.{ecanceled}
use fiberexec.Runtime.Uring.{Kernel}
use fiberexec.Runtime.Thread.{Thread, system_error, runtime_error, invalid_argument, ok, err, fault}
use fiberexec.FiberOps.{install_fiber_stop_token}
use fiberexec.Scheduler.{Pool, post, enqueue, write_eventfd}
use fiberexec.Context.{Context, get_scheduler, schedule}
use fiberexec.Run.{
  Ended, by, unwound, Body, TaskEnd, completed, completed_and_thrown, undefined, complete_by,
  Completion,
}
use fiberexec.Run.Sender.{RunOperation, run, run_closure, connect_run, start_run, task_of_run}
use fiberexec.SyncWait.{wait_on, exception_ptr}
use fiberexec.SyncWait.Result.{waited}
use fiberexec.SyncWait.Handshake.{
  Call, value, error, stopped, result_of, Handshake, begun, left, Reach,
}
use fiberexec.SyncWait.Handshake.Ends.{handshake_ends}

-- The completion that the task of a run makes on the receiver of sync_wait.
abbrev call_for : {R : Type 0} → Completion R → Call R
call_for (Completion.set_value v) = value v
call_for Completion.set_stopped = stopped
call_for (Completion.set_error e) = error (exception_ptr e)

abbrev pub call_of : {R : Type 0} → TaskEnd R → Option (Call R)
call_of (completed c) = some (call_for c)
call_of (completed_and_thrown c) = some (call_for c)
call_of undefined = none

result-waited :
    {R : Type 0} (x : Ended R) (d : Call R)
    → call_of (complete_by x) ≡ some d
    → result_of d ≡ waited x
unfolding complete_by
result-waited (by (ok v)) d e = ground arith
result-waited (by (err (system_error code what))) d e =
    elim (Bool-cases (eq_ℤ code (pos ecanceled))) [ inl c ↦ ground arith | inr c ↦ ground arith ]
result-waited (by (err (runtime_error what))) d e = ground arith
result-waited (by (err (invalid_argument what))) d e = ground arith
result-waited (by fault) d e = ground arith
result-waited unwound d e = ground arith

-- The operation that sync_wait starts: its receiver has no stop token.
abbrev pub Started : Type 0 → Type 0
Started R = RunOperation R × Pool

abbrev pub started_run : {R : Type 0} → Context → Body R → ℕ → Pool → Started R
started_run c fn work p = start_run work (connect_run (run (get_scheduler c) fn) none) p

task_of_run-ended :
    {R : Type 0} (c : Context) (fn : Body R) (work : ℕ) (p : Pool) (k : Kernel) (u : Thread)
    → (task_of_run (started_run c fn work p).0 k u).0
      ≡ complete_by (fn k (install_fiber_stop_token none k u).1).0
unfolding run get_scheduler start_run connect_run task_of_run
task_of_run-ended c fn work p k u = refl

-- sync_wait of a run of any callable whose behaviour is defined (`d` is the completion that its task
-- makes, on whatever thread `u` the task is run): starting it pushes one task to the pool's queue and
-- writes one token; it is the same sender as the pipe form; and in every interleaving of the task's
-- completion with the waiting fiber, once that fiber has left its wait it has the value that the callable
-- returned under no stop token, nullopt if a cancellation or an unwinding ended it, and else its
-- exception.
pub fiber_awaits_run :
    {R : Type 0} (c : Context) (fn : Body R) (work : ℕ) (p : Pool) (k : Kernel) (t u : Thread)
    (d : Call R) {h : Handshake R}
    → call_of (task_of_run (started_run c fn work p).0 k u).0 ≡ some d
    → Reach d begun h
    → h.waiter ≡ left
    → ((started_run c fn work p).1.work_queue ≡ p.work_queue ++ (work ∷ []))
      × ((started_run c fn work p).1.tokens ≡ suc p.tokens)
      × (run_closure fn (schedule (get_scheduler c)) ≡ run (get_scheduler c) fn)
      × ((wait_on h.state k t).0 ≡ waited (fn k (install_fiber_stop_token none k u).1).0)
unfolding run run_closure get_scheduler schedule start_run connect_run post enqueue write_eventfd
fiber_awaits_run c fn work p k t u d made r e =
    let (live, nearer, lives, gets) = handshake_ends d r in
    (
      refl,
      refl,
      refl,
      gets k t e
          ∙ result-waited (fn k (install_fiber_stop_token none k u).1).0 d
              (ap call_of (sym (task_of_run-ended c fn work p k u)) ∙ made),
    )
