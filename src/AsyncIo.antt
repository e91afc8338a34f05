-- ===== src/AsyncIo.antt =====
-- src/async_io.cpp and include/fiberexec/fd_ref.hpp: one function for each I/O call of a fiber.
pub mod Request
pub mod Completion
pub mod Untimed
pub mod Timed
pub mod Runs
pub mod Pairs
pub mod Refusal
use fiberexec.Base.{
  ℕ, ◌%◌, ◌^◌, ℤ, pos, is_neg, is_positive, neg, minus, eq_ℤ, Bool, true, false, not, List, [], ◌∷◌,
  Option, String,
}
use fiberexec.Runtime.Abi.{etime}
use fiberexec.Runtime.Uring.{Op, Span, prep}
use fiberexec.Runtime.Thread.{
  system_error, runtime_error, M, ◌>>=◌, ◌>>◌, pure, throw, when, get_sqe, write_sqe,
}
use fiberexec.FiberOps.{
  begin_async_op, dispatch, submit_and_wait, submit_linked_and_wait, current_ring, timespec_of,
  set_fixed_file,
}

-- A slot of the registered table.
pub record FixedFd : Type 0 where
  pub index : ℤ

-- An ordinary descriptor or a registered slot.
pub record FdRef : Type 0 where
  pub index : ℤ
  pub fixed : Bool

abbrev pub fd_ref_of_int : ℤ → FdRef
fd_ref_of_int fd = record { index = fd; fixed = false }

abbrev pub fd_ref_of_fixed : FixedFd → FdRef
fd_ref_of_fixed fd = record { index = fd.index; fixed = true }

-- `static_cast<unsigned>(buf.size())`
abbrev pub to_unsigned : ℕ → ℕ
to_unsigned n = n % 2 ^ 32

unfoldable pub async_read : FdRef → Span → Option ℤ → M ℤ
unfolding begin_async_op
async_read fd buf timeout = do
  begin_async_op "async_read"
  sqe ← get_sqe
  write_sqe sqe (λ e. prep (Op.read fd.index buf.ptr (to_unsigned buf.size) 0))
  when fd.fixed (write_sqe sqe set_fixed_file)
  res ← dispatch sqe timeout
  when (is_neg res) (throw (system_error (neg res) "async_read"))
  pure res

unfoldable pub async_write : FdRef → Span → Option ℤ → M ℤ
unfolding begin_async_op
async_write fd buf timeout = do
  begin_async_op "async_write"
  sqe ← get_sqe
  write_sqe sqe (λ e. prep (Op.write fd.index buf.ptr (to_unsigned buf.size) 0))
  when fd.fixed (write_sqe sqe set_fixed_file)
  res ← dispatch sqe timeout
  when (is_neg res) (throw (system_error (neg res) "async_write"))
  pure res

unfoldable pub async_accept : ℤ → ℕ → ℕ → Option ℤ → M ℤ
unfolding begin_async_op
async_accept fd addr addrlen timeout = do
  begin_async_op "async_accept"
  sqe ← get_sqe
  write_sqe sqe (λ e. prep (Op.accept fd addr addrlen 0))
  res ← dispatch sqe timeout
  when (is_neg res) (throw (system_error (neg res) "async_accept"))
  pure res

unfoldable pub async_openat : ℤ → String → ℤ → ℕ → Option ℤ → M ℤ
unfolding begin_async_op
async_openat dirfd path flags mode timeout = do
  begin_async_op "async_openat"
  sqe ← get_sqe
  write_sqe sqe (λ e. prep (Op.openat dirfd path flags mode))
  res ← dispatch sqe timeout
  when (is_neg res) (throw (system_error (neg res) "async_openat"))
  pure res

unfoldable pub async_close : ℤ → M (Unit {0})
unfolding current_ring
async_close fd = do
  ring ← current_ring
  when (not ring) (throw (runtime_error "async_close called outside of a fiberexec fiber"))
  sqe ← get_sqe
  write_sqe sqe (λ e. prep (Op.close fd))
  res ← submit_and_wait sqe
  when (is_neg res) (throw (system_error (neg res) "async_close"))

unfoldable pub async_connect : FdRef → ℕ → ℕ → Option ℤ → M (Unit {0})
unfolding begin_async_op
async_connect fd addr addrlen timeout = do
  begin_async_op "async_connect"
  sqe ← get_sqe
  write_sqe sqe (λ e. prep (Op.connect fd.index addr addrlen))
  when fd.fixed (write_sqe sqe set_fixed_file)
  res ← dispatch sqe timeout
  when (is_neg res) (throw (system_error (neg res) "async_connect"))

unfoldable pub async_recv : FdRef → Span → ℤ → Option ℤ → M ℤ
unfolding begin_async_op
async_recv fd buf flags timeout = do
  begin_async_op "async_recv"
  sqe ← get_sqe
  write_sqe sqe (λ e. prep (Op.recv fd.index buf.ptr buf.size flags))
  when fd.fixed (write_sqe sqe set_fixed_file)
  res ← dispatch sqe timeout
  when (is_neg res) (throw (system_error (neg res) "async_recv"))
  pure res

unfoldable pub async_send : FdRef → Span → ℤ → Option ℤ → M ℤ
unfolding begin_async_op
async_send fd buf flags timeout = do
  begin_async_op "async_send"
  sqe ← get_sqe
  write_sqe sqe (λ e. prep (Op.send fd.index buf.ptr buf.size flags))
  when fd.fixed (write_sqe sqe set_fixed_file)
  res ← dispatch sqe timeout
  when (is_neg res) (throw (system_error (neg res) "async_send"))
  pure res

-- `res.front()` and `res.back()` of the array of two results.
abbrev pub front : List ℤ → ℤ
front [] = pos 0
front (x ∷ xs) = x

abbrev pub back : List ℤ → ℤ
back [] = pos 0
back (x ∷ []) = x
back (x ∷ y ∷ xs) = back (y ∷ xs)

unfoldable pub async_send_recv : FdRef → Span → Span → ℤ → ℤ → M (ℤ × ℤ)
unfolding begin_async_op
async_send_recv fd send_buf recv_buf send_flags recv_flags = do
  begin_async_op "async_send_recv"
  sqe0 ← get_sqe
  write_sqe sqe0 (λ e. prep (Op.send fd.index send_buf.ptr send_buf.size send_flags))
  when fd.fixed (write_sqe sqe0 set_fixed_file)
  sqe1 ← get_sqe
  write_sqe sqe1 (λ e. prep (Op.recv fd.index recv_buf.ptr recv_buf.size recv_flags))
  when fd.fixed (write_sqe sqe1 set_fixed_file)
  res ← submit_linked_and_wait (sqe0 ∷ sqe1 ∷ []) 2
  when (is_neg (front res)) (throw (system_error (neg (front res)) "async_send_recv (send)"))
  when (is_neg (back res)) (throw (system_error (neg (back res)) "async_send_recv (recv)"))
  pure (front res, back res)

unfoldable pub async_write_fsync : FdRef → Span → M ℤ
unfolding begin_async_op
async_write_fsync fd buf = do
  begin_async_op "async_write_fsync"
  sqe0 ← get_sqe
  write_sqe sqe0 (λ e. prep (Op.write fd.index buf.ptr (to_unsigned buf.size) 0))
  when fd.fixed (write_sqe sqe0 set_fixed_file)
  sqe1 ← get_sqe
  write_sqe sqe1 (λ e. prep (Op.fsync fd.index 0))
  when fd.fixed (write_sqe sqe1 set_fixed_file)
  res ← submit_linked_and_wait (sqe0 ∷ sqe1 ∷ []) 2
  when (is_neg (front res)) (throw (system_error (neg (front res)) "async_write_fsync (write)"))
  when (is_neg (back res)) (throw (system_error (neg (back res)) "async_write_fsync (fsync)"))
  pure (front res)

-- The timeout's own error, ETIME, is its normal end.
unfoldable pub async_sleep_for : ℤ → M (Unit {0})
unfolding begin_async_op
async_sleep_for duration = do
  begin_async_op "async_sleep_for"
  when (is_positive duration) do
    sqe ← get_sqe
    write_sqe sqe (λ e. prep (Op.timeout (timespec_of duration) 0 0))
    res ← submit_and_wait sqe
    when (not (eq_ℤ res (minus etime))) (throw (system_error (neg res) "async_sleep_for"))
