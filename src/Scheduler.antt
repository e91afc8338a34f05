-- ===== src/Scheduler.antt =====
-- src/fiber_context.cpp: the pool (`fiber_pool`) and each thread's scheduler (`io_uring_scheduler`).
-- `task` and fibers are numbers. A result of none is undefined behaviour: a write through the null
-- pointer that io_uring_get_sqe returned.
pub mod Cancels
pub mod Handling
pub mod Setup
pub mod Shutdown
pub mod Stopped
pub mod Suspend
pub mod System
pub mod Wakeups
use fiberexec.Base.{
  ℕ, zero, suc, ◌+◌, ◌-◌, ◌==◌, ℤ, is_neg, Bool, true, false, not, ◌&&◌, List, [], ◌∷◌, ◌++◌,
  Option, none, some, if◌then◌else◌, is_empty,
}
use fiberexec.Runtime.Uring.{Op, Sqe, Ring, Kernel, prep, set_data, get_sqe, edit, submit}
use fiberexec.FiberOps.{k_work_tag, k_notify_tag, k_cancel_tag}

-- `tokens` is the value of the eventfd, a semaphore. `wakeups` counts `notify_all`.
pub record Pool : Type 0 where
  pub running : Bool
  pub stop_requested : Bool
  pub eventfd : ℤ
  pub tokens : ℕ
  pub in_flight : ℕ
  pub work_queue : List ℕ
  pub wakeups : ℕ

-- `launched` are the tasks that this thread made fibers of, oldest first, and `dispatched` the
-- completions that went to handlers: user data, result and flags.
pub record Scheduler : Type 0 where
  pub ring : Ring
  pub notify_fd : ℤ
  pub work_efd_val : ℕ
  pub notify_val : ℕ
  pub ready : List ℕ
  pub cancel_queue : List ℕ
  pub notify_tokens : ℕ
  pub launched : List ℕ
  pub dispatched : List (ℕ × ℤ × ℕ)

pub record Cqe : Type 0 where
  pub tag : ℕ
  pub res : ℤ
  pub flags : ℕ

-- `post` under the mutex, and its write to the eventfd.
unfoldable pub enqueue : ℕ → Pool → Pool
enqueue work p = record p { work_queue = p.work_queue ++ (work ∷ []) }

unfoldable pub write_eventfd : Pool → Pool
write_eventfd p = record p { tokens = suc p.tokens }

unfoldable pub post : ℕ → Pool → Pool
unfolding enqueue write_eventfd
post work p = write_eventfd (enqueue work p)

unfoldable pub stop : Pool → Pool
stop p = record p { stop_requested = true; running = false; wakeups = suc p.wakeups }

-- The condition on which a worker leaves its wait.
unfoldable pub may_exit : Pool → Bool
may_exit p = not p.running && p.in_flight == 0

unfoldable pub awakened : ℕ → Scheduler → Scheduler
awakened ctx s = record s { ready = s.ready ++ (ctx ∷ []) }

unfoldable pub pick_next : Scheduler → Option ℕ × Scheduler
pick_next s = elim s.ready [ [] ↦ (none, s) | ctx ∷ rest ↦ (some ctx, record s { ready = rest }) ]

unfoldable pub has_ready_fibers : Scheduler → Bool
has_ready_fibers s = not (is_empty s.ready)

unfoldable pub notify : Scheduler → Scheduler
notify s = record s { notify_tokens = suc s.notify_tokens }

unfoldable pub request_cancel : ℕ → Scheduler → Scheduler
request_cancel user_data s = record s {
  cancel_queue = s.cancel_queue ++ (user_data ∷ []);
  notify_tokens = suc s.notify_tokens;
}

-- A read of 8 bytes from an eventfd, submitted at once.
arm_read : Kernel → (fd : ℤ) (buf tag : ℕ) → Scheduler → Option Scheduler
arm_read k fd buf tag s = let (sqe, r) = get_sqe k s.ring in go sqe r
  where
    go : Option ℕ → Ring → Option Scheduler
    go none r = none
    go (some i) r = some (record s {
      ring = (submit k (edit i (set_data tag) (edit i (λ e. prep (Op.read fd buf 8 0)) r))).1;
    })

unfoldable pub arm_work_efd : Kernel → Pool → Scheduler → Option Scheduler
unfolding arm_read
arm_work_efd k p s = arm_read k p.eventfd s.work_efd_val k_work_tag s

unfoldable pub arm_notify : Kernel → Scheduler → Option Scheduler
unfolding arm_read
arm_notify k s = arm_read k s.notify_fd s.notify_val k_notify_tag s

cancel_entry : ℕ → Sqe → Sqe
cancel_entry target e = set_data k_cancel_tag (prep (Op.cancel target 0))

-- What is left of the queue, and the ring.
unfoldable pub flush : Kernel → List ℕ → Ring → List ℕ × Ring
unfolding cancel_entry
flush k [] r = ([], r)
flush k (target ∷ targets) r =
    let (sqe, r') = get_sqe k r in
    let next = λ (i : ℕ). flush k targets (edit i (cancel_entry target) r') in
    elim sqe [ none ↦ (target ∷ targets, r') | some i ↦ next i ]

unfoldable pub flush_cancel_queue : Kernel → Scheduler → Scheduler
unfolding flush
flush_cancel_queue k s =
    let (left, r) = flush k s.cancel_queue s.ring in record s { cancel_queue = left; ring = r }

unfoldable pub launch_fiber : ℕ → Pool → Scheduler → Pool × Scheduler
launch_fiber work p s =
    (record p { in_flight = suc p.in_flight }, record s { launched = s.launched ++ (work ∷ []) })

-- The end of a launched fiber.
unfoldable pub fiber_done : Pool → Pool
fiber_done p = record p {
  in_flight = p.in_flight - 1;
  wakeups = if p.in_flight == 1 then suc p.wakeups else p.wakeups;
}

take_work : Pool → Scheduler → Pool × Scheduler
unfolding launch_fiber
take_work p s = elim p.work_queue [
  | [] ↦ (p, s)
  | work ∷ rest ↦ launch_fiber work (record p { work_queue = rest }) s
]

-- A completion that is for the eventfd of the pool, for that of the thread, for nobody, or for the
-- handler at an address, whose effect on the ring is `handler`.
unfoldable pub handle_work : Kernel → ℤ → Pool → Scheduler → Option (Pool × Scheduler)
unfolding arm_work_efd take_work
handle_work k res p s =
    let (p', s') = if not (is_neg res) && p.running then take_work p s else (p, s) in
    let armed = arm_work_efd k p' s' in
    if p'.running then (elim armed [ none ↦ none | some s'' ↦ some (p', s'') ]) else some (p', s')

unfoldable pub handle_cqe :
    (handler : ℕ → ℤ → ℕ → Ring → Ring)
    → Kernel
    → Cqe
    → Pool
    → Scheduler
    → Option (Pool × Scheduler)
unfolding handle_work flush_cancel_queue arm_notify
handle_cqe handler k c p s =
    if c.tag == k_work_tag
    then handle_work k c.res p s
    else if c.tag == k_notify_tag
    then (elim (arm_notify k (flush_cancel_queue k s)) [ none ↦ none | some s' ↦ some (p, s') ])
    else if c.tag == k_cancel_tag
    then some (p, s)
    else some (
      p,
      record s {
        dispatched = s.dispatched ++ ((c.tag, c.res, c.flags) ∷ []);
        ring = handler c.tag c.res c.flags s.ring;
      },
    )

-- Every completion that is in the ring, in order.
unfoldable pub drain_cqes :
    (handler : ℕ → ℤ → ℕ → Ring → Ring)
    → Kernel
    → List Cqe
    → Pool
    → Scheduler
    → Option (Pool × Scheduler)
unfolding handle_cqe
drain_cqes handler k [] p s = some (p, s)
drain_cqes handler k (c ∷ cs) p s = elim (handle_cqe handler k c p s) [
  | none ↦ none
  | some (p', s') ↦ drain_cqes handler k cs p' s'
]
