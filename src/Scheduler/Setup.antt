-- ===== src/Scheduler/Setup.antt =====
-- src/fiber_context.cpp and include/fiberexec/context.hpp: the options, the construction of the pool
-- and of each thread's scheduler with its ring, and what a worker sets up for its fibers.
pub mod Rings
pub mod Locals
use fiberexec.Base.{
  ℕ, ◌*◌, ◌+◌, ◌%◌, ◌^◌, ◌&&◌, ℤ, pos, is_neg, neg, minus, eq_ℤ, Bool, true, false, List, [],
  Option, none, some, if◌then◌else◌, ltb,
}
use mathlib.Core.Option
use fiberexec.Runtime.Abi.{einval}
use fiberexec.Runtime.Uring.{Ring, Kernel, empty_ring}
use fiberexec.Runtime.Thread.{Outcome, ok, err, fault, system_error, Thread, M, ◌>>=◌, pure}
use fiberexec.Channel.Boost.{BoostChannel}
use fiberexec.FixedBufferPool as Buffers
use fiberexec.FixedFdTable as Files
use fiberexec.Scheduler.{Pool, Scheduler, stop, arm_work_efd, arm_notify}

pub record ContextOptions : Type 0 where
  pub thread_count : ℕ
  pub stack_size : ℕ
  pub fixed_buffer_size : ℕ
  pub fixed_buffer_count : ℕ
  pub registered_fd_capacity : ℕ

abbrev pub default_stack_size : ℕ
default_stack_size = 128 * 1024

-- The options that a thread count and a stack size stand for.
unfoldable pub options_of : (thread_count stack_size : ℕ) → ContextOptions
options_of thread_count stack_size = record {
  thread_count = thread_count;
  stack_size = stack_size;
  fixed_buffer_size = 0;
  fixed_buffer_count = 0;
  registered_fd_capacity = 0;
}

-- `{}`, on a machine with a number of processors.
unfoldable pub default_options : ℕ → ContextOptions
unfolding options_of
default_options hardware_concurrency = options_of (hardware_concurrency % 2 ^ 32) default_stack_size

-- The system calls of a construction: what eventfd returns, with `errno`, and the two ways to set up a
-- ring, for a number of entries and flags.
pub record Os : Type 0 where
  pub eventfd : ℤ
  pub errno : ℕ
  pub queue_init_params : (entries flags : ℕ) → ℤ
  pub queue_init : (entries flags : ℕ) → ℤ

unfoldable pub new_pool : Os → Outcome Pool
new_pool os =
    if is_neg os.eventfd
    then err (system_error (pos os.errno) "eventfd")
    else ok (record {
      running = true;
      stop_requested = false;
      eventfd = os.eventfd;
      tokens = 0;
      in_flight = 0;
      work_queue = [];
      wakeups = 0;
    })

abbrev pub k_ring_entries : ℕ
k_ring_entries = 256

-- IORING_SETUP_SINGLE_ISSUER | IORING_SETUP_COOP_TASKRUN | IORING_SETUP_DEFER_TASKRUN
abbrev pub setup_flags : ℕ
setup_flags = 2 ^ 12 + 2 ^ 8 + 2 ^ 13

-- With the flags first, and without them on a kernel that does not know them.
unfoldable pub init_ring : Os → ℤ
init_ring os =
    let ret = os.queue_init_params k_ring_entries setup_flags in
    if eq_ℤ ret (minus einval) then os.queue_init k_ring_entries 0 else ret

-- `notify_tokens` counts the writes to the thread's own eventfd.
abbrev pub blank : ℤ → (work_efd_val notify_val : ℕ) → Scheduler
blank fd work_efd_val notify_val = record {
  ring = empty_ring;
  notify_fd = fd;
  work_efd_val = work_efd_val;
  notify_val = notify_val;
  ready = [];
  cancel_queue = [];
  notify_tokens = 0;
  launched = [];
  dispatched = [];
}

-- `arm_work_efd(); arm_notify();`
arm_both : Kernel → Pool → Scheduler → Outcome Scheduler
arm_both k p s = elim (arm_work_efd k p s) [
  | none ↦ fault
  | some s1 ↦ elim (arm_notify k s1) [ none ↦ fault | some s2 ↦ ok s2 ]
]

-- The scheduler of a thread; the last arguments are the addresses that the eventfds are read to.
unfoldable pub new_scheduler :
    Os → Kernel → Pool → (work_efd_val notify_val : ℕ) → Outcome Scheduler
unfolding init_ring arm_both
new_scheduler os k p work_efd_val notify_val =
    if is_neg os.eventfd
    then err (system_error (pos os.errno) "eventfd (notify)")
    else if is_neg (init_ring os)
    then err (system_error (neg (init_ring os)) "io_uring_queue_init")
    else arm_both k p (blank os.eventfd work_efd_val notify_val)

-- The thread whose `tl_ring` is the ring of a scheduler.
unfoldable pub thread_of : Scheduler → Thread
thread_of s = record {
  has_ring = true;
  ring = s.ring;
  fiber_stop = none;
  pool_stop = false;
  cancel_queue = s.cancel_queue;
  notified = s.notify_tokens;
  frames = 0;
  shut_down = [];
  buf_groups = [];
}

-- The destructor of a scheduler: no ring is current any more.
unfoldable pub drop_scheduler : Thread → Thread
drop_scheduler t = record t { has_ring = false; ring = empty_ring }

module _ (C : BoostChannel ℕ) where
  -- `tl_fixed_buffer_pool` and `tl_fixed_fd_table`: what they point to.
  pub record Resources : Type 0 where
    pub buffers : Option (Buffers.Pool C)
    pub files : Option (Files.Table C)

  make_buffers : ℕ → ContextOptions → M (Option (Option (Buffers.Pool C)))
  make_buffers self opts =
      if ltb 0 opts.fixed_buffer_size && ltb 0 opts.fixed_buffer_count
      then (do
        fbp ← Buffers.construct C self opts.fixed_buffer_size opts.fixed_buffer_count
        pure (Option.map some fbp))
      else pure (some none)

  make_files : ℕ → ContextOptions → M (Option (Files.Table C))
  make_files self opts =
      if ltb 0 opts.registered_fd_capacity
      then (do fdt ← Files.construct C self opts.registered_fd_capacity; pure (some fdt))
      else pure none

  -- What a worker sets up before it waits; none where it does not come to that. The numbers are the
  -- addresses of its locals.
  unfoldable pub set_up : (fbp fdt : ℕ) → ContextOptions → M (Option (Resources))
  unfolding make_buffers make_files
  set_up fbp fdt opts = make_buffers fbp opts >>= go
    where
      go : Option (Option (Buffers.Pool C)) → M (Option (Resources))
      go none = pure none
      go (some b) = do f ← make_files fdt opts; pure (some (record { buffers = b; files = f }))

  -- The end of a worker: both pointers are null, and then its locals are destroyed.
  unfoldable pub tear_down :
      Resources → Resources × Option (Files.Table C) × Option (Buffers.Pool C)
  tear_down r = (
    record { buffers = none; files = none },
    Option.map (Files.destroy C) r.files,
    Option.map (Buffers.destroy C) r.buffers,
  )
