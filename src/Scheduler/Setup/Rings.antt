-- ===== src/Scheduler/Setup/Rings.antt =====
-- The construction of a scheduler on every branch, and the pool that such schedulers make.
use fiberexec.Base.{
  ℕ, ℤ, pos, is_neg, neg, minus, eq_ℤ, ◌≡◌, refl, ap, ◌∙◌, Bool, true, false, List, [], ◌∷◌, ◌++◌,
  Option, none, some, if◌then◌else◌, arith, modify-append, ◌==◌, ◌||◌, map, All,
}
use fiberexec.Runtime.Abi.{einval}
use fiberexec.Runtime.Uring.{Op, Sqe, Ring, Kernel, prep, set_data, get_sqe, edit, empty_ring}
use fiberexec.Runtime.Thread.{Outcome, ok, err, fault, system_error}
use fiberexec.FiberOps.{k_work_tag}
use fiberexec.FiberOps.Submission.{Serves, submit_ok}
use fiberexec.Scheduler.{Pool, Scheduler, arm_work_efd, arm_notify}
use fiberexec.Scheduler.Cancels.{read_notify, arm_notify_lem}
use fiberexec.Scheduler.System.{Worker, System, IsNew}
use fiberexec.Scheduler.Setup.{
  Os, new_pool, init_ring, new_scheduler, blank, arm_both, k_ring_entries, setup_flags,
}

abbrev pub read_work : Pool → Scheduler → Sqe
read_work p s = record (prep (Op.read p.eventfd s.work_efd_val 8 0)) { user_data = k_work_tag }

arm_work_efd_lem :
    (k : Kernel) (p : Pool) (s : Scheduler)
    → Serves k
    → arm_work_efd k p s
      ≡ some (record s {
        ring = record { sq = []; sent = s.ring.sent ++ ((s.ring.sq ++ (read_work p s ∷ [])) ∷ []) };
      })
unfolding arm_work_efd get_sqe edit
arm_work_efd_lem k p s serves =
    rw
      (
        serves.room s.ring,
        get_sqe,
        modify-append s.ring.sq (prep Op.nop) (λ e. prep (Op.read p.eventfd s.work_efd_val 8 0)),
        modify-append s.ring.sq (prep (Op.read p.eventfd s.work_efd_val 8 0)) (set_data k_work_tag),
        submit_ok k (record s.ring { sq = s.ring.sq ++ (read_work p s ∷ []) }) (serves.takes _),
      )
      refl

-- What a set-up of the ring comes to: the answer to the flags, unless that is EINVAL.
abbrev pub ring_ret : Os → ℤ
ring_ret os =
    if eq_ℤ (os.queue_init_params k_ring_entries setup_flags) (minus einval)
    then os.queue_init k_ring_entries 0
    else os.queue_init_params k_ring_entries setup_flags

-- The ring of a new scheduler.
abbrev pub two_reads : Pool → Scheduler → Ring
two_reads p s = record { sq = []; sent = (read_work p s ∷ []) ∷ (read_notify s ∷ []) ∷ [] }

module _ (k : Kernel) (p : Pool) (s : Scheduler) (serves : Serves k) where
  finish_arming : Option Scheduler → Outcome Scheduler
  finish_arming none = fault
  finish_arming (some s2) = ok s2

  begin_arming : Option Scheduler → Outcome Scheduler
  begin_arming none = fault
  begin_arming (some s1) = finish_arming (arm_notify k s1)

  abbrev with_work : Scheduler
  with_work = record s {
    ring = record { sq = []; sent = s.ring.sent ++ ((s.ring.sq ++ (read_work p s ∷ [])) ∷ []) };
  }

  arm_both-begin : arm_both k p s ≡ begin_arming (arm_work_efd k p s)
  unfolding arm_both begin_arming finish_arming
  arm_both-begin = ground arith

  arm_both_lem : s.ring ≡ empty_ring → arm_both k p s ≡ ok (record s { ring = two_reads p s })
  unfolding begin_arming finish_arming
  arm_both_lem empty =
      arm_both-begin
      ∙ ap begin_arming (arm_work_efd_lem k p s serves)
      ∙ ap finish_arming (arm_notify_lem k with_work serves)
      ∙ ap
          (λ (r : Ring). ok (record s {
            ring = record {
              sq = [];
              sent =
                  (r.sent ++ ((r.sq ++ (read_work p s ∷ [])) ∷ [])) ++ ((read_notify s ∷ []) ∷ []);
            };
          }))
          empty

-- The construction of a thread's scheduler, with a kernel that has a vacant entry and takes every
-- submission, on every branch: it fails with the error of eventfd, or with that of the ring, which is
-- set up with the flags, and without them exactly if the kernel answers EINVAL to the flags; and else
-- the scheduler's ring has been handed a read of the pool's eventfd and one of the thread's own, in
-- this order and with these tags, and nothing more.
pub new_scheduler_lem :
    (os : Os) (k : Kernel) (p : Pool) (a b : ℕ)
    → Serves k
    → new_scheduler os k p a b ≡ (
        if is_neg os.eventfd
        then err (system_error (pos os.errno) "eventfd (notify)")
        else if is_neg (ring_ret os)
        then err (system_error (neg (ring_ret os)) "io_uring_queue_init")
        else ok (record (blank os.eventfd a b) { ring = two_reads p (blank os.eventfd a b) }))
unfolding new_scheduler init_ring
new_scheduler_lem os k p a b serves =
    ground (arith, arm_both_lem k p (blank os.eventfd a b) serves refl)

-- A thread after its construction, as the pool's steps see it: whether the kernel holds its read of
-- the pool's eventfd is read off what was submitted.
abbrev any_work : List Sqe → Bool
any_work [] = false
any_work (e ∷ es) = (e.user_data == k_work_tag) || any_work es

abbrev any_batch : List (List Sqe) → Bool
any_batch [] = false
any_batch (b ∷ bs) = any_work b || any_batch bs

abbrev pub worker_of : Scheduler → Worker
worker_of s = record { sched = s; armed = any_batch s.ring.sent; cqes = [] }

abbrev pub started : Pool → List Scheduler → System
started p ss = record {
  pool = p;
  workers = map worker_of ss;
  writes = 0;
  live = 0;
  posted = [];
  launched = [];
}

abbrev pub IsBuilt : Os → Kernel → Pool → Scheduler → Type 0
IsBuilt os k p s = (a b : ℕ) × (new_scheduler os k p a b ≡ ok s)

built-armed :
    (os : Os) (k : Kernel) (p : Pool) (s : Scheduler)
    → Serves k
    → IsBuilt os k p s
    → (worker_of s).armed ≡ true
built-armed os k p s serves (a, b, e) = ground (arith, new_scheduler_lem os k p a b serves)

all_armed :
    (os : Os) (k : Kernel) (p : Pool) (ss : List Scheduler)
    → Serves k
    → All (IsBuilt os k p) ss
    → All (λ (w : Worker). (w.armed ≡ true) × (w.cqes ≡ [])) (map worker_of ss)
all_armed os k p [] serves h = tt
all_armed os k p (s ∷ ss) serves h =
    ((built-armed os k p s serves h.0, refl), all_armed os k p ss serves h.1)

-- The pool that the constructor makes, with the schedulers that its threads construct, is one from
-- which the steps of the pool set out: running, with no task, token or fiber, and with a read of the
-- pool's eventfd armed on every thread.
pub started-IsNew :
    (os : Os) (k : Kernel) (p : Pool) (ss : List Scheduler)
    → Serves k
    → new_pool os ≡ ok p
    → All (IsBuilt os k p) ss
    → IsNew (started p ss)
unfolding new_pool
started-IsNew os k p ss serves e built = record {
  running = ground arith;
  no_tokens = ground arith;
  no_work = ground arith;
  none_in_flight = ground arith;
  set_up = all_armed os k p ss serves built;
  no_writes = refl;
  none_live = refl;
  none_posted = refl;
  none_launched = refl;
}
