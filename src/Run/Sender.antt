-- ===== src/Run/Sender.antt =====
-- include/fiberexec/run.hpp, `run_sender`, its operation state, and the pipe form `run_closure`.
use fiberexec.Base.{ℕ, Bool, true, false, none, some, if◌then◌else◌}
use fiberexec.Runtime.Uring.{Kernel}
use fiberexec.Runtime.Thread.{Thread}
use fiberexec.FiberOps.{StopToken, stop_possible, stop_requested, install_fiber_stop_token}
use fiberexec.Scheduler.{Pool, post}
use fiberexec.Context.{Handle, ScheduleSender, stopped_source}
use fiberexec.Run.{Body, TaskEnd, complete_by}

pub record RunSender (R : Type 0) : Type 0 where
  pub ctx : ℕ
  pub fn : Body R

-- `run(sched, fn)`
unfoldable pub run : {R : Type 0} → Handle → Body R → RunSender R
run sched fn = record { ctx = sched.ctx; fn = fn }

-- `run(fn)` applied to an upstream schedule sender.
unfoldable pub run_closure : {R : Type 0} → Body R → ScheduleSender → RunSender R
run_closure fn sndr = record { ctx = sndr.ctx; fn = fn }

unfoldable pub completion_scheduler_of_run : {R : Type 0} → RunSender R → Handle
completion_scheduler_of_run s = record { ctx = s.ctx }

pub record RunOperation (R : Type 0) : Type 0 where
  pub ctx : ℕ
  pub env_tok : StopToken
  pub fn : Body R
  pub fiber_stop : StopToken
  pub stop_cb : Bool

unfoldable pub connect_run : {R : Type 0} → RunSender R → StopToken → RunOperation R
connect_run s env_tok = record {
  ctx = s.ctx;
  env_tok = env_tok;
  fn = s.fn;
  fiber_stop = none;
  stop_cb = false;
}

bridge_run : {R : Type 0} → RunOperation R → RunOperation R
bridge_run op =
    if stop_possible op.env_tok
    then record op {
      fiber_stop = if stop_requested op.env_tok then stopped_source (some false) else some false;
      stop_cb = true;
    }
    else op

-- `start` posts one task, here with its number.
unfoldable pub start_run : {R : Type 0} → (work : ℕ) → RunOperation R → Pool → RunOperation R × Pool
unfolding bridge_run
start_run work op p = (bridge_run op, post work p)

-- The posted task, on the fiber that runs it.
unfoldable pub task_of_run : {R : Type 0} → RunOperation R → Kernel → Thread → TaskEnd R × Thread
unfolding install_fiber_stop_token
task_of_run op k t =
    let (ended, t') = op.fn k (install_fiber_stop_token op.fiber_stop k t).1 in
    (complete_by ended, t')
