-- ===== src/AsyncIo/Refusal.antt =====
-- Calls that submit nothing: outside of a worker, after a stop, and with a full ring.
use fiberexec.Base.{ℤ, pos, ◌≡◌, true, false, Bool, Option, arith}
use fiberexec.Runtime.Abi.{ecanceled}
use fiberexec.Runtime.Uring.{Kernel, get_sqe}
use fiberexec.Runtime.Thread.{Thread, err, fault, system_error, runtime_error, Error}
use fiberexec.FiberOps.{begin_async_op, current_ring, stop_requested}
use fiberexec.FiberOps.Submission.{IsReady, begin_async_op-ready, begin_async_op-stopped}
use fiberexec.AsyncIo.{
  async_read, async_write, async_accept, async_openat, async_close, async_connect, async_recv,
  async_send, async_sleep_for,
}
use fiberexec.AsyncIo.Request.{
  Request, read, write, recv, send, accept, openat, connect, close, sleep, perform, name_of,
}

-- `close` does not look at the token.
abbrev pub checks_stop : Request → Bool
checks_stop (close fd) = false
checks_stop q = true

-- After a stop request every call but `close` throws ECANCELED under its own name, and leaves the
-- thread as it was: no entry is taken from the ring.
pub perform-stopped :
    (q : Request) (timeout : Option ℤ) (k : Kernel) (t : Thread)
    → t.has_ring ≡ true
    → stop_requested t.fiber_stop ≡ true
    → checks_stop q ≡ true
    → perform q timeout k t ≡ (err (system_error (pos ecanceled) (name_of q)), t)
unfolding async_read async_write async_recv async_send async_accept async_openat async_connect
    async_sleep_for
perform-stopped (read fd buf) d k t on st c = rw (begin_async_op-stopped "async_read" k t on st)
perform-stopped (write fd buf) d k t on st c = rw (begin_async_op-stopped "async_write" k t on st)
perform-stopped (recv fd buf f) d k t on st c = rw (begin_async_op-stopped "async_recv" k t on st)
perform-stopped (send fd buf f) d k t on st c = rw (begin_async_op-stopped "async_send" k t on st)
perform-stopped (accept fd a l) d k t on st c = rw (begin_async_op-stopped "async_accept" k t on st)
perform-stopped (openat x p f m) d k t on st c =
    rw (begin_async_op-stopped "async_openat" k t on st)
perform-stopped (connect fd a l) d k t on st c =
    rw (begin_async_op-stopped "async_connect" k t on st)
perform-stopped (close fd) d k t on st c = absurd (ground arith)
perform-stopped (sleep n) d k t on st c = rw (begin_async_op-stopped "async_sleep_for" k t on st)

abbrev outside_error : Request → Error
outside_error (read _ _) = runtime_error "async_read called outside of a fiberexec fiber"
outside_error (write _ _) = runtime_error "async_write called outside of a fiberexec fiber"
outside_error (recv _ _ _) = runtime_error "async_recv called outside of a fiberexec fiber"
outside_error (send _ _ _) = runtime_error "async_send called outside of a fiberexec fiber"
outside_error (accept _ _ _) = runtime_error "async_accept called outside of a fiberexec fiber"
outside_error (openat _ _ _ _) = runtime_error "async_openat called outside of a fiberexec fiber"
outside_error (connect _ _ _) = runtime_error "async_connect called outside of a fiberexec fiber"
outside_error (close _) = runtime_error "async_close called outside of a fiberexec fiber"
outside_error (sleep _) = runtime_error "async_sleep_for called outside of a fiberexec fiber"

-- Outside of a worker thread every call throws a runtime error that names it, and changes nothing.
pub perform-outside :
    (q : Request) (timeout : Option ℤ) (k : Kernel) (t : Thread)
    → t.has_ring ≡ false
    → perform q timeout k t ≡ (err (outside_error q), t)
unfolding async_read async_write async_recv async_send async_accept async_openat async_connect
    async_sleep_for async_close begin_async_op
perform-outside (read fd buf) d k t off = rw off
perform-outside q d k t off = rw off

-- The call has no check of the pointer that io_uring_get_sqe returns: on a worker, with no stop
-- requested, a full ring makes every call write through the null pointer.
pub perform-ring_full :
    (q : Request) (timeout : Option ℤ) (k : Kernel) (t : Thread)
    → IsReady t
    → k.room t.ring ≡ false
    → (perform q timeout k t).0 ≡ fault
unfolding async_read async_write async_recv async_send async_accept async_openat async_connect
    async_sleep_for async_close current_ring get_sqe
perform-ring_full (read fd buf) d k t r full =
    rw (begin_async_op-ready "async_read" k t r, full, get_sqe)
perform-ring_full (write fd buf) d k t r full =
    rw (begin_async_op-ready "async_write" k t r, full, get_sqe)
perform-ring_full (recv fd buf f) d k t r full =
    rw (begin_async_op-ready "async_recv" k t r, full, get_sqe)
perform-ring_full (send fd buf f) d k t r full =
    rw (begin_async_op-ready "async_send" k t r, full, get_sqe)
perform-ring_full (accept fd a l) d k t r full =
    rw (begin_async_op-ready "async_accept" k t r, full, get_sqe)
perform-ring_full (openat x p f m) d k t r full =
    rw (begin_async_op-ready "async_openat" k t r, full, get_sqe)
perform-ring_full (connect fd a l) d k t r full =
    rw (begin_async_op-ready "async_connect" k t r, full, get_sqe)
perform-ring_full (close fd) d k t r full = rw (r.on_worker, full, get_sqe)
perform-ring_full (sleep n) d k t r full =
    rw (begin_async_op-ready "async_sleep_for" k t r, full, get_sqe)
