-- ===== src/FiberOps/Timeout.antt =====
-- submit_and_wait_with_timeout: the linked timeout, and what stays behind when the ring is full.
use fiberexec.Base.{
  ◌≡◌, refl, ℕ, ◌*◌, ◌+◌, ◌/◌, ◌%◌, ◌<◌, ℤ, pos, is_neg, true, false, [], ◌∷◌, some, arith, List,
  subst,
}
use fiberexec.Runtime.Uring.{Timespec, Op, Sqe, Kernel, prep, get_sqe as ring_get_sqe, edit}
use fiberexec.Runtime.Thread.{Thread, ok, err, runtime_error}
use fiberexec.FiberOps.{submit_and_wait_with_timeout, timespec_of, k_cancel_tag}
use fiberexec.FiberOps.Stops.{watch_stops_lem}
use fiberexec.FiberOps.Submission.{handler_of, holding, sent_after, submit_ok}

-- The operation's entry, linked, with its handler.
abbrev pub guarded : Sqe → Thread → Sqe
guarded e t = record e { io_link = true; user_data = handler_of t }

abbrev pub timer : ℤ → Sqe
timer timeout = record (prep (Op.link_timeout (timespec_of timeout) 0)) { user_data = k_cancel_tag }

-- The seconds and the rest of a duration that is not negative make it up, and the rest is below a
-- second: the timeout that is armed is the timeout that was asked for.
pub timespec_of_lem :
    (n : ℕ)
    → (s ns : ℕ) × (timespec_of (pos n) ≡ record { tv_sec = pos s; tv_nsec = pos ns })
      × (s * 1_000_000_000 + ns ≡ n)
      × (ns < 1_000_000_000)
unfolding timespec_of
timespec_of_lem n = (n / 1_000_000_000, n % 1_000_000_000, refl, omega arith, omega arith)

module _ (e : Sqe) (timeout : ℤ) (k : Kernel) (t : Thread) where
  pub guards :
      t.ring.sq ≡ e ∷ []
      → k.room (holding t (guarded e t)).ring ≡ true
      → is_neg (k.submit_ret (record { sq = guarded e t ∷ timer timeout ∷ []; sent = t.ring.sent }))
        ≡ false
      → ((submit_and_wait_with_timeout (some 0) timeout k t).0
          ≡ ok (k.result (sent_after t.ring (guarded e t ∷ timer timeout ∷ [])) (handler_of t)))
        × ((submit_and_wait_with_timeout (some 0) timeout k t).1.ring
            ≡ sent_after t.ring (guarded e t ∷ timer timeout ∷ []))
  unfolding submit_and_wait_with_timeout ring_get_sqe edit
  guards holds room ret =
      rw (holds, room, ring_get_sqe, submit_ok k _ ret, ret, watch_stops_lem _ _ k _) (refl, refl)

  -- With no vacant entry for the timer the call throws, and leaves the operation's entry in the queue
  -- for the next submission, linked, with the address of a handler whose frame the exception ended.
  pub with_timeout-ring_full :
      t.ring.sq ≡ e ∷ []
      → k.room (holding t (guarded e t)).ring ≡ false
      → ((submit_and_wait_with_timeout (some 0) timeout k t).0
          ≡ err (runtime_error "submit_and_wait_with_timeout: io_uring ring full"))
        × ((submit_and_wait_with_timeout (some 0) timeout k t).1.ring.sq ≡ guarded e t ∷ [])
  unfolding submit_and_wait_with_timeout ring_get_sqe edit
  with_timeout-ring_full holds full = rw (holds, full, ring_get_sqe) (refl, refl)

abbrev pub timer_of : (s ns : ℕ) → Sqe
timer_of s ns = record (prep (Op.link_timeout (record { tv_sec = pos s; tv_nsec = pos ns }) 0)) {
  user_data = k_cancel_tag;
}

-- With a vacant entry and a submission that the kernel takes, a wait with a timeout of `n` nanoseconds,
-- not negative, submits one batch, the operation's entry linked to a timer, whose seconds and
-- nanoseconds, fewer than a second's, make up `n`; and the result is the operation's.
pub with_timeout_lem :
    (e : Sqe) (n : ℕ) (k : Kernel) (t : Thread)
    → t.ring.sq ≡ e ∷ []
    → k.room (holding t (guarded e t)).ring ≡ true
    → is_neg (k.submit_ret (record { sq = guarded e t ∷ timer (pos n) ∷ []; sent = t.ring.sent }))
      ≡ false
    → (s ns : ℕ) × (s * 1_000_000_000 + ns ≡ n)
      × (ns < 1_000_000_000)
      × ((submit_and_wait_with_timeout (some 0) (pos n) k t).0
          ≡ ok (k.result (sent_after t.ring (guarded e t ∷ timer_of s ns ∷ [])) (handler_of t)))
      × ((submit_and_wait_with_timeout (some 0) (pos n) k t).1.ring
          ≡ sent_after t.ring (guarded e t ∷ timer_of s ns ∷ []))
with_timeout_lem e n k t holds room ret =
    let (s, ns, eq, sum, below) = timespec_of_lem n in
    let (answer, ring) = guards e (pos n) k t holds room ret in
    (s, ns, sum, below, subst Answers eq answer, subst Submits eq ring)
  where
    timed : Timespec → List Sqe
    timed ts = guarded e t ∷ record (prep (Op.link_timeout ts 0)) { user_data = k_cancel_tag } ∷ []

    Answers : Timespec → Type 0
    Answers ts =
        (submit_and_wait_with_timeout (some 0) (pos n) k t).0
        ≡ ok (k.result (sent_after t.ring (timed ts)) (handler_of t))

    Submits : Timespec → Type 0
    Submits ts =
        (submit_and_wait_with_timeout (some 0) (pos n) k t).1.ring ≡ sent_after t.ring (timed ts)
