-- ===== src/FixedBufferPool/SendZc/Phases.antt =====
-- What a zero-copy send answers, and that it does so once the kernel let go of the buffer.
use fiberexec.Base.{
  ℕ, ℤ, is_neg, neg, ◌≡◌, refl, true, false, List, [], ◌∷◌, Option, some, arith, if◌then◌else◌,
}
use fiberexec.Runtime.Abi.{has_more, is_notif}
use fiberexec.Runtime.Uring.{Op, Sqe, Kernel, prep, get_sqe as ring_get_sqe, edit}
use fiberexec.Runtime.Thread.{Thread, Outcome, ok, err, system_error}
use fiberexec.FiberOps.Submission.{handler_of, holding, sent_after, submit_ok}
use fiberexec.FixedBufferPool.{FixedBuffer, data_of}
use fiberexec.FixedBufferPool.SendZc.{
  SendZcHandler, new_send_zc_handler, complete, complete_all, wait, async_send_zc, set_value,
}

-- The completions of one send, as the kernel documents them, with the send's result: one that carries
-- the result and no MORE flag, or that with a MORE flag and then a notification.
pub data Phases : List (ℤ × ℕ) → ℤ → Type 0 where
  inline :
      (res : ℤ) (flags : ℕ)
      → is_notif flags ≡ false
      → has_more flags ≡ false
      → Phases ((res, flags) ∷ []) res
  notified :
      (res : ℤ) (flags : ℕ) (res' : ℤ) (flags' : ℕ)
      → is_notif flags ≡ false
      → has_more flags ≡ true
      → is_notif flags' ≡ true
      → Phases ((res, flags) ∷ (res', flags') ∷ []) res

-- The completions that come before the last one.
abbrev pub before_last : List (ℤ × ℕ) → List (ℤ × ℕ)
before_last [] = []
before_last (c ∷ []) = []
before_last (c ∷ d ∷ cs) = c ∷ before_last (d ∷ cs)

-- For the completions that the kernel documents: the fiber sleeps until the last one, the notification
-- where one follows; it wakes then, and finds the send's result; the promise is set only once.
pub woken_at_last :
    (cs : List (ℤ × ℕ)) (res : ℤ)
    → Phases cs res
    → ((h : SendZcHandler) × (complete_all (before_last cs) new_send_zc_handler ≡ some h)
        × (h.satisfied ≡ false))
      × (complete_all cs new_send_zc_handler ≡ some (record { result = res; satisfied = true }))
unfolding complete_all complete new_send_zc_handler set_value
woken_at_last _ _ (inline res flags n m) = ((new_send_zc_handler, refl, refl), ground arith)
woken_at_last _ _ (notified res flags res' flags' n m n') =
    ((record { result = res; satisfied = false }, ground arith, refl), ground arith)

wait_lem : (cs : List (ℤ × ℕ)) (res : ℤ) → Phases cs res → wait cs ≡ some res
unfolding wait
wait_lem cs res p = rw (wait, (woken_at_last cs res p).1) refl

abbrev pub zc_entry : ℕ → ℤ → FixedBuffer → ℕ → ℤ → ℕ → Sqe
zc_entry buf_size fd buf nbytes flags handler =
    record (prep (Op.send_zc_fixed fd (data_of buf_size buf).ptr nbytes flags 0 buf.idx)) {
      user_data = handler;
    }

-- What the call answers for a result of the send.
abbrev pub zc_answer : ℤ → Outcome (Option ℤ)
zc_answer res = if is_neg res then err (system_error (neg res) "async_send_zc") else ok (some res)

-- On a worker with no entry left in the queue, a vacant entry and a submission that the kernel takes:
-- one batch is submitted, the send from the place and the index of the handle's buffer; the call
-- returns, since the kernel completes the entry as documented, and answers by the send's result.
pub async_send_zc_lem :
    (buf_size : ℕ) (fd : ℤ) (buf : FixedBuffer) (nbytes : ℕ) (flags : ℤ) (k : Kernel) (t : Thread)
    (res : ℤ)
    → t.has_ring ≡ true
    → t.ring.sq ≡ []
    → k.room t.ring ≡ true
    → is_neg (k.submit_ret (holding t (zc_entry buf_size fd buf nbytes flags (handler_of t))).ring)
      ≡ false
    → Phases
        (k.completions
          (sent_after t.ring (zc_entry buf_size fd buf nbytes flags (handler_of t) ∷ []))
          (handler_of t))
        res
    → ((async_send_zc buf_size fd buf nbytes flags k t).0 ≡ zc_answer res)
      × ((async_send_zc buf_size fd buf nbytes flags k t).1.ring
          ≡ sent_after t.ring (zc_entry buf_size fd buf nbytes flags (handler_of t) ∷ []))
unfolding async_send_zc ring_get_sqe edit
async_send_zc_lem buf_size fd buf nbytes flags k t res on empty room ret p =
    rw (on, room, empty, ring_get_sqe, submit_ok k _ ret, ret, wait_lem _ _ p) (ground arith)
