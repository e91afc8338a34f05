-- ===== src/Context/Bulk.antt =====
-- include/fiberexec/detail/fiber_bulk.hpp, `fiber_domain`, `fiber_bulk_sender` and
-- `fiber_bulk_opstate`: a bulk over a schedule, from its start to the tasks of its fibers.
use fiberexec.Base.{
  ℕ, zero, suc, ◌+◌, ◌≡◌, refl, sym, ap, ◌∙◌, true, false, List, [], ◌∷◌, ◌++◌, none, some, map,
  length, arith,
}
use mathlib.Core.List.{append_assoc, append-nil}
use fiberexec.Base.Range.{range, range_from}
use fiberexec.Runtime.Uring.{Kernel}
use fiberexec.Runtime.Thread.{Thread, ok, M, ◌>>=◌, pure}
use fiberexec.FiberOps.{StopToken, current_fiber_stop_token, install_fiber_stop_token}
use fiberexec.Scheduler.{Pool, post, enqueue, write_eventfd}
use fiberexec.FiberBulk.{Shared, BulkTask, new_shared, receive_value}
use fiberexec.FiberBulk.System.{started}
use fiberexec.Context.{
  ScheduleSender, Operation, completion_scheduler, connect, start, schedule_task,
}

-- The sender of a bulk: its predecessor, the number of calls, and the context of its pool.
pub record BulkSender : Type 0 where
  pub ctx : ℕ
  pub pred : ScheduleSender
  pub shape : ℕ

unfoldable pub transform_sender : ScheduleSender → (shape : ℕ) → BulkSender
unfolding completion_scheduler
transform_sender child shape = record {
  ctx = (completion_scheduler child).ctx;
  pred = child;
  shape = shape;
}

-- The operation state.
pub record BulkOperation : Type 0 where
  pub shape : ℕ
  pub shared : Shared
  pub inner : Operation

unfoldable pub connect_bulk : BulkSender → StopToken → BulkOperation
unfolding connect
connect_bulk sndr env_tok = record {
  shape = sndr.shape;
  shared = new_shared sndr.shape;
  inner = connect sndr.pred env_tok;
}

unfoldable pub start_bulk : (work : ℕ) → BulkOperation → Pool → BulkOperation × Pool
unfolding start
start_bulk work op p = let (inner, p') = start work op.inner p in (record op { inner = inner }, p')

-- The posts of the launcher, each task with its number.
unfoldable pub post_all : (BulkTask → ℕ) → List BulkTask → Pool → Pool
unfolding post
post_all number [] p = p
post_all number (t ∷ ts) p = post_all number ts (post (number t) p)

-- The launcher: the task of the inner operation, which completes the bulk's receiver.
unfoldable pub launch : BulkOperation → M (Shared × List BulkTask)
unfolding schedule_task current_fiber_stop_token
launch op =
    schedule_task op.inner.fiber_stop
      (do tok ← current_fiber_stop_token; pure (receive_value op.shape tok op.shared))

-- A fiber that was just launched has no token.
abbrev pub fresh : Thread → Thread
fresh u = record u { fiber_stop = none }

abbrev pub started_bulk :
    (work : ℕ) → ScheduleSender → (shape : ℕ) → StopToken → Pool → BulkOperation
started_bulk work child shape tok p =
    (start_bulk work (connect_bulk (transform_sender child shape) tok) p).0

launch_lem :
    (work : ℕ) (child : ScheduleSender) (n : ℕ) (tok : StopToken) (p : Pool) (k : Kernel)
    (u : Thread)
    → launch (started_bulk work child n tok p) k (fresh u)
      ≡ (ok ((started n tok).shared, (started n tok).unposted), record u { fiber_stop = tok })
unfolding launch start_bulk connect_bulk transform_sender install_fiber_stop_token
launch_lem work child n none p k u = refl
launch_lem work child n (some false) p k u = refl
launch_lem work child n (some true) p k u = refl

post_all_lem :
    (number : BulkTask → ℕ) (ts : List BulkTask) (p : Pool)
    → ((post_all number ts p).work_queue ≡ p.work_queue ++ map number ts)
      × ((post_all number ts p).tokens ≡ p.tokens + length ts)
unfolding post_all enqueue write_eventfd
post_all_lem number [] p = (sym (append-nil p.work_queue), omega arith)
post_all_lem number (t ∷ ts) p =
    let (q, n) = post_all_lem number ts (post (number t) p) in
    (q ∙ append_assoc p.work_queue (number t ∷ []) (map number ts), omega (arith, n))

abbrev pub task_of : StopToken → ℕ → BulkTask
task_of tok i = record { index = i; tok = tok }

tasks_lem : (n : ℕ) (tok : StopToken) → (started n tok).unposted ≡ map (task_of tok) (range n)
unfolding receive_value
tasks_lem zero tok = refl
tasks_lem (suc n) tok = ground arith

length-tasks : (tok : StopToken) (i n : ℕ) → length (map (task_of tok) (range_from i n)) ≡ n
length-tasks tok i zero = refl
length-tasks tok i (suc n) = omega (arith, length-tasks tok (suc i) n)

-- A bulk of `n` calls over a schedule, on the fiber that runs its launcher: that fiber has the token
-- of the receiver's environment, and the bulk is then at the start of its steps with that token. It
-- has one task for each index below `n`, in order, each with that token; and posting them appends
-- them to the pool's queue in that order and writes one token to the eventfd for each.
pub bulk_launched :
    (work : ℕ) (child : ScheduleSender) (n : ℕ) (tok : StopToken) (p q : Pool) (k : Kernel)
    (u : Thread) (number : BulkTask → ℕ)
    → (launch (started_bulk work child n tok p) k (fresh u)
        ≡ (ok ((started n tok).shared, (started n tok).unposted), record u { fiber_stop = tok }))
      × ((started n tok).unposted ≡ map (task_of tok) (range n))
      × ((post_all number (started n tok).unposted q).work_queue
          ≡ q.work_queue ++ map number (map (task_of tok) (range n)))
      × ((post_all number (started n tok).unposted q).tokens ≡ q.tokens + n)
bulk_launched work child n tok p q k u number =
    let (queue, tokens) = post_all_lem number (started n tok).unposted q in
    (
      launch_lem work child n tok p k u,
      tasks_lem n tok,
      queue ∙ ap (λ (l : List BulkTask). q.work_queue ++ map number l) (tasks_lem n tok),
      tokens ∙ ap (λ (m : ℕ). q.tokens + m) (ap length (tasks_lem n tok) ∙ length-tasks tok 0 n),
    )
