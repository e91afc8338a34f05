-- ===== src/EchoServerPool/Echo.antt =====
-- `handle_connection`: what a worker does with a connection.
pub mod Session
use fiberexec.Base.{
  ℕ, suc, ℤ, pos, is_positive, to_ℕ, Bool, true, false, Option, none, some, if◌then◌else◌,
}
use fiberexec.Runtime.Uring.{Span}
use fiberexec.Runtime.Thread.{
  Thread, Error, system_error, runtime_error, invalid_argument, Outcome, ok, err, fault, M, ◌>>=◌,
  ◌>>◌, pure,
}
use fiberexec.Exchange.{first, caught}
use fiberexec.AsyncIo.{FdRef, fd_ref_of_int, async_recv, async_send}

-- The loop, for so many receives: whether it ended.
unfoldable pub echo : ℕ → (fd : ℤ) → (buf : ℕ) → M Bool
echo ℕ.zero fd buf = pure false
echo (suc fuel) fd buf = do
  n ← async_recv (fd_ref_of_int fd) (first buf 256) (pos 0) none
  if is_positive n
      then (async_send (fd_ref_of_int fd) (first buf (to_ℕ n)) (pos 0) none >>= λ _.
          echo fuel fd buf)
      else pure true

-- The descriptor that `::close` is called on at the end; none while the loop goes on.
unfoldable pub handle_connection : ℕ → (fd : ℤ) → (buf : ℕ) → M (Option ℤ)
unfolding echo
handle_connection fuel fd buf = do
  over ← caught (echo fuel fd buf)
  pure (if over then some fd else none)
