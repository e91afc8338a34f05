-- ===== src/AsyncIo/Request.antt =====
-- The calls of src/async_io.cpp that submit one entry, as data, with what each should submit and
-- how it should read the kernel's answer: the description that the code is held to.
use fiberexec.Base.{
  ℕ, suc, ℤ, pos, is_neg, neg, minus, eq_ℤ, Bool, false, Option, String, if◌then◌else◌,
}
use fiberexec.Runtime.Abi.{etime}
use fiberexec.Runtime.Uring.{Op, Sqe, Span, prep}
use fiberexec.Runtime.Thread.{system_error, Outcome, ok, err, M, ◌>>◌, pure}
use fiberexec.FiberOps.{timespec_of}
use fiberexec.AsyncIo.{
  FdRef, to_unsigned, async_read, async_write, async_accept, async_openat, async_close,
  async_connect, async_recv, async_send, async_sleep_for,
}

-- A sleep of `suc n` nanoseconds: one of no time submits nothing.
pub data Request : Type 0 where
  read write : FdRef → Span → Request
  recv send : FdRef → Span → (flags : ℤ) → Request
  accept : (fd : ℤ) (addr addrlen : ℕ) → Request
  openat : (dirfd : ℤ) → String → (flags : ℤ) (mode : ℕ) → Request
  connect : FdRef → (addr addrlen : ℕ) → Request
  close : (fd : ℤ) → Request
  sleep : (n : ℕ) → Request

-- The call of the code. A call without a result gives 0; `close` and `sleep` take no timeout.
abbrev pub perform : Request → Option ℤ → M ℤ
perform (read fd buf) d = async_read fd buf d
perform (write fd buf) d = async_write fd buf d
perform (recv fd buf flags) d = async_recv fd buf flags d
perform (send fd buf flags) d = async_send fd buf flags d
perform (accept fd addr len) d = async_accept fd addr len d
perform (openat dirfd path flags mode) d = async_openat dirfd path flags mode d
perform (connect fd addr len) d = async_connect fd addr len d >> pure (pos 0)
perform (close fd) d = async_close fd >> pure (pos 0)
perform (sleep n) d = async_sleep_for (pos (suc n)) >> pure (pos 0)

abbrev pub op_of : Request → Op
op_of (read fd buf) = Op.read fd.index buf.ptr (to_unsigned buf.size) 0
op_of (write fd buf) = Op.write fd.index buf.ptr (to_unsigned buf.size) 0
op_of (recv fd buf flags) = Op.recv fd.index buf.ptr buf.size flags
op_of (send fd buf flags) = Op.send fd.index buf.ptr buf.size flags
op_of (accept fd addr len) = Op.accept fd addr len 0
op_of (openat dirfd path flags mode) = Op.openat dirfd path flags mode
op_of (connect fd addr len) = Op.connect fd.index addr len
op_of (close fd) = Op.close fd
op_of (sleep n) = Op.timeout (timespec_of (pos (suc n))) 0 0

abbrev pub is_fixed : Request → Bool
is_fixed (read fd buf) = fd.fixed
is_fixed (write fd buf) = fd.fixed
is_fixed (recv fd buf flags) = fd.fixed
is_fixed (send fd buf flags) = fd.fixed
is_fixed (connect fd addr len) = fd.fixed
is_fixed _ = false

abbrev pub name_of : Request → String
name_of (read _ _) = "async_read"
name_of (write _ _) = "async_write"
name_of (recv _ _ _) = "async_recv"
name_of (send _ _ _) = "async_send"
name_of (accept _ _ _) = "async_accept"
name_of (openat _ _ _ _) = "async_openat"
name_of (connect _ _ _) = "async_connect"
name_of (close _) = "async_close"
name_of (sleep _) = "async_sleep_for"

abbrev pub entry_of : Request → ℕ → Sqe
entry_of q handler = record (prep (op_of q)) { fixed_file = is_fixed q; user_data = handler }

-- A negative result is an exception with the positive error number.
abbrev or_error : String → ℤ → ℤ → Outcome ℤ
or_error name res value = if is_neg res then err (system_error (neg res) name) else ok value

abbrev pub answer : Request → ℤ → Outcome ℤ
answer (connect fd addr len) res = or_error "async_connect" res (pos 0)
answer (close fd) res = or_error "async_close" res (pos 0)
answer (sleep n) res =
    if eq_ℤ res (minus etime) then ok (pos 0) else err (system_error (neg res) "async_sleep_for")
answer q res = or_error (name_of q) res res
