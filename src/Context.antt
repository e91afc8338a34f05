-- ===== src/Context.antt =====
-- include/fiberexec/context.hpp: the context, its scheduler handles, and the sender that moves
-- execution onto a fiber of the pool.
pub mod Bridge
pub mod Bulk
use fiberexec.Base.{ℕ, ◌==◌, Bool, true, false, Option, none, some, if◌then◌else◌}
use fiberexec.Runtime.Thread.{Outcome, ok, err, fault, M, ◌>>=◌, ◌>>◌, pure}
use fiberexec.FiberOps.{StopToken, stop_possible, stop_requested, install_fiber_stop_token}
use fiberexec.Scheduler.{Pool, post}
use fiberexec.Scheduler.Setup.{ContextOptions, options_of, Os, new_pool}

-- A context is its address and the pool that it owns.
pub record Context : Type 0 where
  pub self : ℕ
  pub options : ContextOptions
  pub pool : Pool

unfoldable pub new_context : Os → (self : ℕ) → ContextOptions → Outcome Context
new_context os self options = go (new_pool os)
  where
    go : Outcome Pool → Outcome Context
    go (ok p) = ok (record { self = self; options = options; pool = p })
    go (err e) = err e
    go fault = fault

unfoldable pub new_context_of : Os → (self thread_count stack_size : ℕ) → Outcome Context
new_context_of os self thread_count stack_size =
    new_context os self (options_of thread_count stack_size)

-- `context::scheduler`: a pointer to its context.
pub record Handle : Type 0 where
  pub ctx : ℕ

unfoldable pub get_scheduler : Context → Handle
get_scheduler c = record { ctx = c.self }

unfoldable pub eq_handle : Handle → Handle → Bool
eq_handle a b = a.ctx == b.ctx

pub record ScheduleSender : Type 0 where
  pub ctx : ℕ

unfoldable pub schedule : Handle → ScheduleSender
schedule sched = record { ctx = sched.ctx }

-- `get_completion_scheduler` of the sender's environment.
unfoldable pub completion_scheduler : ScheduleSender → Handle
completion_scheduler sndr = record { ctx = sndr.ctx }

-- The operation state: the token of the receiver's environment, which others stop, the stop source of
-- the fiber, and whether the callback that forwards a stop is engaged. A source without a state is
-- none, else it is whether it was stopped.
pub record Operation : Type 0 where
  pub ctx : ℕ
  pub env_tok : StopToken
  pub fiber_stop : StopToken
  pub stop_cb : Bool

unfoldable pub connect : ScheduleSender → StopToken → Operation
connect sndr env_tok = record {
  ctx = sndr.ctx;
  env_tok = env_tok;
  fiber_stop = none;
  stop_cb = false;
}

-- `request_stop` on the fiber's source.
abbrev pub stopped_source : StopToken → StopToken
stopped_source none = none
stopped_source (some requested) = some true

-- A fresh source, and the callback, which runs at once if a stop was requested already.
bridge : Operation → Operation
bridge op =
    if stop_possible op.env_tok
    then record op {
      fiber_stop = if stop_requested op.env_tok then stopped_source (some false) else some false;
      stop_cb = true;
    }
    else op

-- `start` posts one task, here with its number.
unfoldable pub start : (work : ℕ) → Operation → Pool → Operation × Pool
unfolding bridge
start work op p = (bridge op, post work p)

-- The task on the fiber that runs it: with the token installed, `receiver` is what set_value starts.
unfoldable pub schedule_task : {A : Type 0} → StopToken → M A → M A
schedule_task tok receiver = install_fiber_stop_token tok >> receiver

-- A stop request on the receiver's token, and what the callback forwards.
unfoldable pub request_stop : Operation → Operation
request_stop op = record op {
  env_tok = stopped_source op.env_tok;
  fiber_stop = if op.stop_cb then stopped_source op.fiber_stop else op.fiber_stop;
}
