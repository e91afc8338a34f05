-- ===== src/Runtime/Uring.antt =====
-- liburing as the code sees it. The queue entries that the code writes are data; what the kernel
-- answers is the parameter `Kernel`: whether io_uring_get_sqe finds a vacant entry, what
-- io_uring_submit returns, and what a fiber finds when its wait is over. A submission that does not
-- fail hands over every entry that was written.
use fiberexec.Base.{
  ℕ, ℤ, Bool, false, List, [], ◌∷◌, ◌++◌, Option, none, some, length, modify, is_neg, String,
  if◌then◌else◌,
}

-- `std::span<std::byte>`: an address and a number of bytes.
pub record Span : Type 0 where
  pub ptr : ℕ
  pub size : ℕ

pub record Timespec : Type 0 where
  pub tv_sec : ℤ
  pub tv_nsec : ℤ

-- One constructor for each io_uring_prep_ function, with the arguments that the code passes.
pub data Op : Type 0 where
  nop : Op
  read write : (fd : ℤ) (buf len off : ℕ) → Op
  recv send : (fd : ℤ) (buf len : ℕ) (flags : ℤ) → Op
  accept multishot_accept : (fd : ℤ) (addr addrlen flags : ℕ) → Op
  openat : (dirfd : ℤ) (path : String) (flags : ℤ) (mode : ℕ) → Op
  close : (fd : ℤ) → Op
  connect : (fd : ℤ) (addr addrlen : ℕ) → Op
  fsync : (fd : ℤ) (flags : ℕ) → Op
  timeout : (ts : Timespec) (count flags : ℕ) → Op
  link_timeout : (ts : Timespec) (flags : ℕ) → Op
  cancel : (target : ℕ) (flags : ℕ) → Op
  recv_multishot : (fd : ℤ) (buf len flags : ℕ) → Op
  send_zc_fixed : (fd : ℤ) (buf len : ℕ) (flags : ℤ) (zc_flags buf_index : ℕ) → Op

pub record Sqe : Type 0 where
  pub op : Op
  pub fixed_file : Bool
  pub io_link : Bool
  pub buffer_select : Bool
  pub buf_group : ℕ
  pub user_data : ℕ

-- Preparing an entry resets its flags and its user data.
abbrev pub prep : Op → Sqe
prep op = record {
  op = op;
  fixed_file = false;
  io_link = false;
  buffer_select = false;
  buf_group = 0;
  user_data = 0;
}

abbrev pub set_data : ℕ → Sqe → Sqe
set_data p e = record e { user_data = p }

-- `sq` holds the entries that were taken and not submitted yet, `sent` the submitted batches, both
-- oldest first.
pub record Ring : Type 0 where
  pub sq : List Sqe
  pub sent : List (List Sqe)

abbrev pub empty_ring : Ring
empty_ring = record { sq = []; sent = [] }

pub record Kernel : Type 0 where
  pub room : Ring → Bool
  pub submit_ret : Ring → ℤ
  -- the error of io_uring_setup_buf_ring for a number of buffers and a group, 0 if it succeeds
  pub setup_buf_ring : Ring → ℕ → ℕ → ℤ
  -- the errors of io_uring_register_buffers and io_uring_register_files for a number of buffers or
  -- slots, and of io_uring_register_files_update for a slot and a descriptor
  pub register_buffers : Ring → ℕ → ℤ
  pub register_files : Ring → ℕ → ℤ
  pub update_file : Ring → ℕ → ℤ → ℤ
  -- the completions, result and flags, that carry this user data, in order
  pub completions : Ring → ℕ → List (ℤ × ℕ)
  -- the result that the completion with this user data carries, for the fiber that waits for it
  pub result : Ring → ℕ → ℤ
  -- whether another thread stops the pool, or the fiber's operation, before that completion
  pub pool_stops : Ring → ℕ → Bool
  pub fiber_stops : Ring → ℕ → Bool

-- A pointer to an entry is its place in `sq`; `none` is the null pointer.
unfoldable pub get_sqe : Kernel → Ring → Option ℕ × Ring
get_sqe k r =
    if k.room r
    then (some (length r.sq), record r { sq = r.sq ++ (prep Op.nop ∷ []) })
    else (none, r)

unfoldable pub edit : ℕ → (Sqe → Sqe) → Ring → Ring
edit i f r = record r { sq = modify r.sq i f }

unfoldable pub submit : Kernel → Ring → ℤ × Ring
submit k r =
    if is_neg (k.submit_ret r)
    then (k.submit_ret r, r)
    else (k.submit_ret r, record { sq = []; sent = r.sent ++ (r.sq ∷ []) })
