-- ===== src/Run/Cancellation.antt =====
-- A stop request reaches the receiver of a run as set_stopped, before the operation and during it.
use fiberexec.Base.{
  ℤ, minus, is_neg, ◌≡◌, refl, ap, ◌∙◌, true, false, [], ◌∷◌, Option, none, some, Option-cases, inl,
  inr,
}
use fiberexec.Runtime.Abi.{ecanceled}
use fiberexec.Runtime.Uring.{Kernel}
use fiberexec.Runtime.Thread.{Thread, Outcome}
use fiberexec.FiberOps.{install_fiber_stop_token}
use fiberexec.FiberOps.Submission.{IsReady, handler_of, holding, sent_after}
use fiberexec.AsyncIo.Request.{
  Request, read, write, recv, send, accept, openat, connect, close, sleep, perform, entry_of,
  answer,
}
use fiberexec.AsyncIo.Completion.{perform-completes}
use fiberexec.AsyncIo.Refusal.{checks_stop, perform-stopped}
use fiberexec.Run.{by, body_of, set_stopped, completed, run_task, complete_by, fiber_token}

-- The receiver's token was stopped before the task runs: an operation of the callable (any but
-- `close`) submits nothing, and the run completes with set_stopped.
pub run-stopped :
    (q : Request) (timeout : Option ℤ) (k : Kernel) (t : Thread)
    → t.has_ring ≡ true
    → checks_stop q ≡ true
    → run_task (some true) (body_of (perform q timeout)) k t
      ≡ (completed set_stopped, record t { fiber_stop = some true })
unfolding run_task complete_by fiber_token install_fiber_stop_token
run-stopped q timeout k t on checked =
    rw (perform-stopped q timeout k (record t { fiber_stop = some true }) on refl checked) refl

answer-cancelled :
    (q : Request) → complete_by (by (answer q (minus ecanceled))) ≡ completed set_stopped
unfolding complete_by
answer-cancelled (read _ _) = refl
answer-cancelled (write _ _) = refl
answer-cancelled (recv _ _ _) = refl
answer-cancelled (send _ _ _) = refl
answer-cancelled (accept _ _ _) = refl
answer-cancelled (openat _ _ _ _) = refl
answer-cancelled (connect _ _ _) = refl
answer-cancelled (close _) = refl
answer-cancelled (sleep _) = refl

-- A fiber that has the token already.
reinstalled :
    (k : Kernel) (t : Thread) → (install_fiber_stop_token (fiber_token t.fiber_stop) k t).1 ≡ t
unfolding install_fiber_stop_token fiber_token
reinstalled k t = elim (Option-cases t.fiber_stop) [ inl e ↦ rw e refl | inr (b, e) ↦ rw e refl ]

-- The kernel cancels the entry of the operation while the fiber waits: whichever operation it is, the
-- run completes with set_stopped.
pub run-cancelled :
    (q : Request) (k : Kernel) (t : Thread)
    → IsReady t
    → t.ring.sq ≡ []
    → k.room t.ring ≡ true
    → is_neg (k.submit_ret (holding t (entry_of q (handler_of t))).ring) ≡ false
    → k.result (sent_after t.ring (entry_of q (handler_of t) ∷ [])) (handler_of t) ≡ minus ecanceled
    → (run_task t.fiber_stop (body_of (perform q none)) k t).0 ≡ completed set_stopped
unfolding run_task fiber_token install_fiber_stop_token
run-cancelled q k t r empty room ret cancelled =
    ap (λ (t' : Thread). complete_by (by (perform q none k t').0)) (reinstalled k t)
    ∙ ap (λ (o : Outcome ℤ). complete_by (by o))
        ((perform-completes q none k t r empty room ret).0 ∙ ap (answer q) cancelled)
    ∙ answer-cancelled q
