-- ===== src/AsyncIo/Timed.antt =====
-- A call that is let through, with a timeout: its entry is linked to a timer.
use fiberexec.Base.{
  ℤ, pos, is_neg, ◌≡◌, refl, String, ap, ◌∙◌, Bool, true, false, [], ◌∷◌, some, arith,
}
use fiberexec.Runtime.Uring.{Kernel, Op, Sqe, prep, get_sqe as ring_get_sqe, edit}
use fiberexec.Runtime.Thread.{
  Thread, Outcome, M, ◌>>=◌, ◌>>◌, pure, when, get_sqe, write_sqe, continue,
}
use fiberexec.FiberOps.{begin_async_op, dispatch, submit_and_wait_with_timeout, set_fixed_file}
use fiberexec.FiberOps.Submission.{
  IsReady, handler_of, clean, holding, sent_after, entry, bind_assoc,
}
use fiberexec.FiberOps.Timeout.{timer, guards}
use fiberexec.AsyncIo.{
  async_read, async_write, async_accept, async_openat, async_connect, async_recv, async_send,
}
use fiberexec.AsyncIo.Request.{
  Request, read, write, recv, send, accept, openat, connect, close, sleep, perform, entry_of,
  is_fixed, op_of, answer,
}
use fiberexec.AsyncIo.Untimed.{let_through, value_or, void_or}

-- What a call with a timeout does once it is let through.
abbrev submit_timed : {A : Type 0} → Op → Bool → ℤ → (ℤ → M A) → M A
submit_timed p fixed d f = do
  sqe ← get_sqe
  write_sqe sqe (λ e. prep p)
  when fixed (write_sqe sqe set_fixed_file)
  res ← submit_and_wait_with_timeout sqe d
  f res

-- The entry of a call, linked to what follows.
abbrev pub linked : Request → Thread → Sqe
linked q t = record (entry_of q (handler_of t)) { io_link = true }

module _ (d : ℤ) (k : Kernel) (t : Thread) (room : k.room (clean t).ring ≡ true) where
  abbrev waited : Op → Bool → Outcome ℤ × Thread
  waited p fixed = submit_and_wait_with_timeout (some 0) d k (holding t (entry p fixed 0))

  submit_timed-continue :
      {A : Type 0} (p : Op) (fixed : Bool) (f : ℤ → M A)
      → submit_timed p fixed d f k (clean t) ≡ continue k f (waited p fixed)
  unfolding ring_get_sqe edit
  submit_timed-continue p true f = rw (room, ring_get_sqe)
  submit_timed-continue p false f = rw (room, ring_get_sqe)

  abbrev Answers : Request → Type 0
  Answers q =
      ((perform q (some d) k (clean t)).0
        ≡ answer q (k.result (sent_after t.ring (linked q t ∷ timer d ∷ [])) (handler_of t)))
      × ((perform q (some d) k (clean t)).1.ring ≡ sent_after t.ring (linked q t ∷ timer d ∷ []))

  finishes :
      (q : Request) (f : ℤ → M ℤ)
      → perform q (some d) k (clean t) ≡ continue k f (waited (op_of q) (is_fixed q))
      → ((res : ℤ) (t' : Thread)
          → ((f res k t').0 ≡ answer q res) × ((f res k t').1.ring ≡ t'.ring))
      → k.room (holding t (linked q t)).ring ≡ true
      → is_neg (k.submit_ret (record { sq = linked q t ∷ timer d ∷ []; sent = t.ring.sent }))
        ≡ false
      → Answers q
  finishes q f same keeps vacant ret =
      let (result, ring) =
        guards (entry (op_of q) (is_fixed q) 0) d k (holding t (entry (op_of q) (is_fixed q) 0))
          refl vacant ret in
      (
        ap (λ x. x.0) (same ∙ ap (λ o. continue k f (o, (waited (op_of q) (is_fixed q)).1)) result)
            ∙ (keeps _ _).0,
        ap (λ x. x.1.ring)
              (same ∙ ap (λ o. continue k f (o, (waited (op_of q) (is_fixed q)).1)) result)
            ∙ (keeps _ _).1
            ∙ ring,
      )

  module _ (r : IsReady t) where
    through :
        {A : Type 0} (name : String) (q : Request) (f : ℤ → M A)
        → (begin_async_op name >> submit_timed (op_of q) (is_fixed q) d f) k (clean t)
          ≡ continue k f (waited (op_of q) (is_fixed q))
    through name q f =
        let_through k t r room name (submit_timed (op_of q) (is_fixed q) d f)
        ∙ submit_timed-continue (op_of q) (is_fixed q) f

    -- The calls that take a timeout.
    abbrev pub TakesTimeout : Request → Type 0
    TakesTimeout (close fd) = ⊥
    TakesTimeout (sleep n) = ⊥
    TakesTimeout q = Unit

    pub perform-timed :
        (q : Request)
        → TakesTimeout q
        → k.room (holding t (linked q t)).ring ≡ true
        → is_neg (k.submit_ret (record { sq = linked q t ∷ timer d ∷ []; sent = t.ring.sent }))
          ≡ false
        → Answers q
    unfolding async_read async_write async_recv async_send async_accept async_openat async_connect
        dispatch
    perform-timed (read fd buf) can =
        finishes (read fd buf) (value_or "async_read")
          (through "async_read" (read fd buf) (value_or "async_read")) (λ res t'. ground arith)
    perform-timed (write fd buf) can =
        finishes (write fd buf) (value_or "async_write")
          (through "async_write" (write fd buf) (value_or "async_write")) (λ res t'. ground arith)
    perform-timed (recv fd buf fl) can =
        finishes (recv fd buf fl) (value_or "async_recv")
          (through "async_recv" (recv fd buf fl) (value_or "async_recv")) (λ res t'. ground arith)
    perform-timed (send fd buf fl) can =
        finishes (send fd buf fl) (value_or "async_send")
          (through "async_send" (send fd buf fl) (value_or "async_send")) (λ res t'. ground arith)
    perform-timed (accept fd a l) can =
        finishes (accept fd a l) (value_or "async_accept")
          (through "async_accept" (accept fd a l) (value_or "async_accept"))
          (λ res t'. ground arith)
    perform-timed (openat n p fl m) can =
        finishes (openat n p fl m) (value_or "async_openat")
          (through "async_openat" (openat n p fl m) (value_or "async_openat"))
          (λ res t'. ground arith)
    perform-timed (connect fd a l) can =
        finishes (connect fd a l) (λ res. void_or "async_connect" res >> pure (pos 0))
          (ap (continue k (λ _. pure (pos 0)))
              (through "async_connect" (connect fd a l) (void_or "async_connect"))
            ∙ bind_assoc k (void_or "async_connect") (λ _. pure (pos 0))
                (waited (Op.connect fd.index a l) fd.fixed))
          (λ res t'. ground arith)
    perform-timed (close fd) can = absurd can
    perform-timed (sleep n) can = absurd can
