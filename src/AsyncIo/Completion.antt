-- ===== src/AsyncIo/Completion.antt =====
-- A call that is let through submits its own entry, with a timer where it has a timeout, and answers
-- by its result.
use fiberexec.Base.{ℤ, is_neg, ◌≡◌, true, false, List, [], ◌∷◌, Option, none, some, subst, sym}
use fiberexec.Runtime.Uring.{Kernel, Sqe}
use fiberexec.Runtime.Thread.{Thread}
use fiberexec.FiberOps.Submission.{IsReady, handler_of, clean, clean-eq, holding, sent_after}
use fiberexec.FiberOps.Timeout.{timer}
use fiberexec.AsyncIo.Request.{
  Request, read, write, recv, send, accept, openat, connect, close, sleep, perform, entry_of,
  answer,
}
use fiberexec.AsyncIo.Untimed.{perform-untimed}
use fiberexec.AsyncIo.Timed.{linked, perform-timed}

-- The batch that a call should submit: its entry, linked to a timer if it has a timeout (`close` and
-- `sleep` take none).
abbrev pub batch_of : Request → Option ℤ → Thread → List Sqe
batch_of q none t = entry_of q (handler_of t) ∷ []
batch_of (close fd) (some d) t = entry_of (close fd) (handler_of t) ∷ []
batch_of (sleep n) (some d) t = entry_of (sleep n) (handler_of t) ∷ []
batch_of q (some d) t = linked q t ∷ timer d ∷ []

-- The kernel has a vacant entry for each entry of the batch.
abbrev pub HasRoom : Kernel → Thread → List Sqe → Type 0
HasRoom k t (e ∷ next ∷ es) = (k.room t.ring ≡ true) × (k.room (holding t e).ring ≡ true)
HasRoom k t es = k.room t.ring ≡ true

abbrev Completes : Request → Option ℤ → Kernel → (t t' : Thread) → Type 0
Completes q timeout k t t' =
    ((perform q timeout k t').0
      ≡ answer q (k.result (sent_after t.ring (batch_of q timeout t)) (handler_of t)))
    × ((perform q timeout k t').1.ring ≡ sent_after t.ring (batch_of q timeout t))

module _ (k : Kernel) (t : Thread) (r : IsReady t) (empty : t.ring.sq ≡ []) where
  timed :
      (q : Request) (d : ℤ)
      → ((room : k.room (clean t).ring ≡ true)
          → k.room (holding t (linked q t)).ring ≡ true
          → is_neg (k.submit_ret (record { sq = linked q t ∷ timer d ∷ []; sent = t.ring.sent }))
            ≡ false
          → Completes q (some d) k t (clean t))
      → k.room t.ring ≡ true
      → k.room (holding t (linked q t)).ring ≡ true
      → is_neg (k.submit_ret (record { sq = linked q t ∷ timer d ∷ []; sent = t.ring.sent }))
        ≡ false
      → Completes q (some d) k t t
  timed q d run room vacant ret =
      subst (λ (t' : Thread). Completes q (some d) k t t') (clean-eq t empty)
        (run (subst (λ (t' : Thread). k.room t'.ring ≡ true) (sym (clean-eq t empty)) room) vacant
          ret)

-- A call that is let through, on a thread with no entry left in its queue, for every call and with or
-- without a timeout (a sleep is of a positive duration): where the kernel has a vacant entry for each
-- entry of the batch and takes the submission, exactly one batch is submitted, the call's own entry,
-- with the handler's address as its user data and the fixed-file flag as the descriptor says, and,
-- with a timeout, which `close` and `sleep` do not take, linked to a timer that follows it; and the
-- call answers by that handler's result: a negative one is thrown as an error with the positive
-- number, any other is returned (a sleep returns on ETIME and throws on everything else).
pub perform-completes :
    (q : Request) (timeout : Option ℤ) (k : Kernel) (t : Thread)
    → IsReady t
    → t.ring.sq ≡ []
    → HasRoom k t (batch_of q timeout t)
    → is_neg (k.submit_ret (record { sq = batch_of q timeout t; sent = t.ring.sent })) ≡ false
    → ((perform q timeout k t).0
        ≡ answer q (k.result (sent_after t.ring (batch_of q timeout t)) (handler_of t)))
      × ((perform q timeout k t).1.ring ≡ sent_after t.ring (batch_of q timeout t))
perform-completes q none k t r empty room ret = perform-untimed q k t r empty room ret
perform-completes (close fd) (some d) k t r empty room ret =
    perform-untimed (close fd) k t r empty room ret
perform-completes (sleep n) (some d) k t r empty room ret =
    perform-untimed (sleep n) k t r empty room ret
perform-completes (read fd buf) (some d) k t r empty room ret =
    timed k t r empty (read fd buf) d (λ c. perform-timed d k t c r (read fd buf) tt) room.0 room.1
      ret
perform-completes (write fd buf) (some d) k t r empty room ret =
    timed k t r empty (write fd buf) d (λ c. perform-timed d k t c r (write fd buf) tt) room.0
      room.1 ret
perform-completes (recv fd buf fl) (some d) k t r empty room ret =
    timed k t r empty (recv fd buf fl) d (λ c. perform-timed d k t c r (recv fd buf fl) tt) room.0
      room.1 ret
perform-completes (send fd buf fl) (some d) k t r empty room ret =
    timed k t r empty (send fd buf fl) d (λ c. perform-timed d k t c r (send fd buf fl) tt) room.0
      room.1 ret
perform-completes (accept fd a l) (some d) k t r empty room ret =
    timed k t r empty (accept fd a l) d (λ c. perform-timed d k t c r (accept fd a l) tt) room.0
      room.1 ret
perform-completes (openat n p fl m) (some d) k t r empty room ret =
    timed k t r empty (openat n p fl m) d (λ c. perform-timed d k t c r (openat n p fl m) tt) room.0
      room.1 ret
perform-completes (connect fd a l) (some d) k t r empty room ret =
    timed k t r empty (connect fd a l) d (λ c. perform-timed d k t c r (connect fd a l) tt) room.0
      room.1 ret
