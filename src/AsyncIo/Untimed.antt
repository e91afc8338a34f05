-- ===== src/AsyncIo/Untimed.antt =====
-- A call that is let through, without a timeout.
use fiberexec.Base.{
  suc, ℤ, pos, is_neg, neg, minus, eq_ℤ, ◌≡◌, subst, sym, ap, ◌∙◌, true, false, not, [], ◌∷◌, none,
  arith, String,
}
use fiberexec.Runtime.Abi.{etime}
use fiberexec.Runtime.Uring.{Kernel, Op}
use fiberexec.Runtime.Thread.{Thread, Outcome, M, ◌>>◌, pure, when, throw, system_error, continue}
use fiberexec.FiberOps.{begin_async_op, dispatch, timespec_of}
use fiberexec.FiberOps.Submission.{
  IsReady, begin_async_op-ready, handler_of, clean, holding, sent_after, submit_one,
  submit_one_runs, submit_one-bind, resumed, clean-eq,
}
use fiberexec.AsyncIo.{
  async_read, async_write, async_accept, async_openat, async_close, async_connect, async_recv,
  async_send, async_sleep_for,
}
use fiberexec.AsyncIo.Request.{
  Request, read, write, recv, send, accept, openat, connect, close, sleep, perform, entry_of,
  is_fixed, op_of, answer,
}

-- What a call does with its result.
abbrev pub void_or : String → ℤ → M (Unit {0})
void_or name res = when (is_neg res) (throw (system_error (neg res) name))

abbrev pub value_or : String → ℤ → M ℤ
value_or name res = void_or name res >> pure res

abbrev zero_or : String → ℤ → M ℤ
zero_or name res = void_or name res >> pure (pos 0)

abbrev timed : ℤ → M (Unit {0})
timed res = when (not (eq_ℤ res (minus etime))) (throw (system_error (neg res) "async_sleep_for"))

module _ (k : Kernel) (t : Thread) (r : IsReady t) (room : k.room (clean t).ring ≡ true) where
  pub let_through :
      {A : Type 0} (name : String) (m : M A)
      → (begin_async_op name >> m) k (clean t) ≡ m k (clean t)
  let_through name m = rw (
      begin_async_op-ready name k (clean t)
        (record { on_worker = r.on_worker; running = r.running }))

  abbrev Completes : Request → Type 0
  Completes q =
      ((perform q none k (clean t)).0
        ≡ answer q (k.result (sent_after t.ring (entry_of q (handler_of t) ∷ [])) (handler_of t)))
      × ((perform q none k (clean t)).1.ring ≡ sent_after t.ring (entry_of q (handler_of t) ∷ []))

  finishes :
      (q : Request) (f : ℤ → M ℤ)
      → perform q none k (clean t) ≡ submit_one (op_of q) (is_fixed q) f k (clean t)
      → ((res : ℤ) (t' : Thread)
          → ((f res k t').0 ≡ answer q res) × ((f res k t').1.ring ≡ t'.ring))
      → is_neg (k.submit_ret (holding t (entry_of q (handler_of t))).ring) ≡ false
      → Completes q
  finishes q f same keeps ret =
      (rw (same, run.0) (keeps _ _).0, rw (same, run.0) ((keeps _ _).1 ∙ run.1))
    where
      run :
          (submit_one (op_of q) (is_fixed q) f k (clean t)
            ≡ f
                (k.result (sent_after t.ring (entry_of q (handler_of t) ∷ [])) (handler_of t))
                k
                (resumed k t room (op_of q) (is_fixed q)))
          × ((resumed k t room (op_of q) (is_fixed q)).ring
              ≡ sent_after t.ring (entry_of q (handler_of t) ∷ []))
      run = submit_one_runs k t room (op_of q) (is_fixed q) f ret

  pub through :
      {A : Type 0} (name : String) (q : Request) (f : ℤ → M A)
      → (begin_async_op name >> submit_one (op_of q) (is_fixed q) f) k (clean t)
        ≡ submit_one (op_of q) (is_fixed q) f k (clean t)
  through name q f = let_through name (submit_one (op_of q) (is_fixed q) f)

  close_through :
      (fd : ℤ)
      → async_close fd k (clean t)
        ≡ submit_one (Op.close fd) false (void_or "async_close") k (clean t)
  unfolding async_close
  close_through fd = rw r.on_worker

  abbrev discard : Outcome (Unit {0}) × Thread → Outcome ℤ × Thread
  discard = continue k (λ _. pure (pos 0))

  clean-Completes :
      (q : Request)
      → is_neg (k.submit_ret (holding t (entry_of q (handler_of t))).ring) ≡ false
      → Completes q
  unfolding async_read async_write async_recv async_send async_accept async_openat async_connect
      async_close async_sleep_for dispatch
  clean-Completes (read fd buf) =
      finishes (read fd buf) (value_or "async_read")
        (through "async_read" (read fd buf) (value_or "async_read")) (λ res t'. ground arith)
  clean-Completes (write fd buf) =
      finishes (write fd buf) (value_or "async_write")
        (through "async_write" (write fd buf) (value_or "async_write")) (λ res t'. ground arith)
  clean-Completes (recv fd buf fl) =
      finishes (recv fd buf fl) (value_or "async_recv")
        (through "async_recv" (recv fd buf fl) (value_or "async_recv")) (λ res t'. ground arith)
  clean-Completes (send fd buf fl) =
      finishes (send fd buf fl) (value_or "async_send")
        (through "async_send" (send fd buf fl) (value_or "async_send")) (λ res t'. ground arith)
  clean-Completes (accept fd a l) =
      finishes (accept fd a l) (value_or "async_accept")
        (through "async_accept" (accept fd a l) (value_or "async_accept")) (λ res t'. ground arith)
  clean-Completes (openat d p fl m) =
      finishes (openat d p fl m) (value_or "async_openat")
        (through "async_openat" (openat d p fl m) (value_or "async_openat"))
        (λ res t'. ground arith)
  clean-Completes (connect fd a l) =
      finishes (connect fd a l) (zero_or "async_connect")
        (ap discard (through "async_connect" (connect fd a l) (void_or "async_connect"))
          ∙ submit_one-bind k t room (Op.connect fd.index a l) fd.fixed (void_or "async_connect")
              (λ _. pure (pos 0)))
        (λ res t'. ground arith)
  clean-Completes (close fd) =
      finishes (close fd) (zero_or "async_close")
        (ap discard (close_through fd)
          ∙ submit_one-bind k t room (Op.close fd) false (void_or "async_close")
              (λ _. pure (pos 0)))
        (λ res t'. ground arith)
  clean-Completes (sleep n) =
      finishes (sleep n) (λ res. timed res >> pure (pos 0))
        (ap discard (through "async_sleep_for" (sleep n) timed)
          ∙ submit_one-bind k t room (Op.timeout (timespec_of (pos (suc n))) 0 0) false timed
              (λ _. pure (pos 0)))
        (λ res t'. ground arith)

pub perform-untimed :
    (q : Request) (k : Kernel) (t : Thread)
    → IsReady t
    → t.ring.sq ≡ []
    → k.room t.ring ≡ true
    → is_neg (k.submit_ret (holding t (entry_of q (handler_of t))).ring) ≡ false
    → ((perform q none k t).0
        ≡ answer q (k.result (sent_after t.ring (entry_of q (handler_of t) ∷ [])) (handler_of t)))
      × ((perform q none k t).1.ring ≡ sent_after t.ring (entry_of q (handler_of t) ∷ []))
perform-untimed q k t r empty room ret =
    subst
      (λ (t' : Thread).
        ((perform q none k t').0
          ≡ answer q (k.result (sent_after t.ring (entry_of q (handler_of t) ∷ [])) (handler_of t)))
        × ((perform q none k t').1.ring ≡ sent_after t.ring (entry_of q (handler_of t) ∷ [])))
      (clean-eq t empty)
      (clean-Completes k t r
        (subst (λ (t' : Thread). k.room t'.ring ≡ true) (sym (clean-eq t empty)) room) q ret)
