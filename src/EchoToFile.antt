-- ===== src/EchoToFile.antt =====
-- examples/echo_to_file.cpp, `handle_connection`: what a worker does with a connection, whose bytes go to a
-- file of its own.
pub mod Session
use fiberexec.Base.{
  ℕ, suc, ℤ, pos, is_positive, minus, to_ℕ, Bool, true, false, Option, none, some, String, ◌==◌,
  ◌-◌, if◌then◌else◌,
}
use fiberexec.Runtime.Thread.{M, ◌>>=◌, ◌>>◌, pure}
use fiberexec.Exchange.{first, caught}
use fiberexec.AsyncIo.{fd_ref_of_int, async_recv, async_write, async_openat, async_close}

abbrev pub k_clients : ℕ
k_clients = 6

-- AT_FDCWD, O_WRONLY | O_CREAT | O_TRUNC and 0644 on Linux.
abbrev pub at_fdcwd : ℤ
at_fdcwd = minus 100

abbrev pub open_flags : ℤ
open_flags = pos 577

abbrev pub open_mode : ℕ
open_mode = 420

-- The loop, for so many receives: whether it ended.
unfoldable pub log : ℕ → (client_fd file_fd : ℤ) → (buf : ℕ) → M Bool
log ℕ.zero client_fd file_fd buf = pure false
log (suc fuel) client_fd file_fd buf = do
  n ← async_recv (fd_ref_of_int client_fd) (first buf 256) (pos 0) none
  if is_positive n
      then (async_write (fd_ref_of_int file_fd) (first buf (to_ℕ n)) none >>= λ _.
          log fuel client_fd file_fd buf)
      else pure true

-- The connection with the number `id`, whose file is at `path`. The result is whether the listening
-- socket is shut down at the end; none while the loop goes on.
unfoldable pub handle_connection :
    ℕ → (path : String) → (id : ℕ) → (client_fd : ℤ) → (buf : ℕ) → M (Option Bool)
unfolding log
handle_connection fuel path id client_fd buf = do
  file_fd ← async_openat at_fdcwd path open_flags open_mode none
  over ← caught (log fuel client_fd file_fd buf)
  if over
      then (async_close file_fd >> (async_close client_fd >> pure (some (id == k_clients - 1))))
      else pure none
