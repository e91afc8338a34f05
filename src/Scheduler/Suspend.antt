-- ===== src/Scheduler/Suspend.antt =====
-- src/fiber_context.cpp, `io_uring_scheduler::suspend_until`: how long a thread without a runnable fiber
-- waits for completions, and what it then handles.
use Prim.Native.Nat.{◌/◌}
use fiberexec.Base.{
  ℕ, ◌+◌, ◌-◌, ◌*◌, ◌%◌, ◌<◌, ◌≤◌, ◌≡◌, refl, ℤ, pos, eq_ℤ, List, [], ◌∷◌, ◌++◌, Option, none, some,
  if◌then◌else◌, leb, is_empty, arith, ◌||◌, Option-cases, inl, inr,
}
use fiberexec.Runtime.Uring.{Kernel, Timespec}
use fiberexec.FiberOps.{timespec_of}
use fiberexec.Scheduler.{Pool, Scheduler, Cqe, drain_cqes, handle_cqe}
use fiberexec.Scheduler.System.{
  Worker, System, Handler, rearms, after_handle, Step, handles, Reach, here, later,
}

-- The outside world while the thread waits: the time in nanoseconds, and what io_uring_wait_cqe and
-- io_uring_wait_cqe_timeout return, with the completions that are then in the ring.
pub record Waiting : Type 0 where
  pub now : ℕ
  pub wait_cqe : ℤ × List Cqe
  pub wait_cqe_timeout : Timespec → ℤ × List Cqe

-- The completions that are handled: none of it where the wait failed.
abbrev pub awaited : ℤ × List Cqe → List Cqe
awaited (ret, cqes) = if eq_ℤ ret (pos 0) then cqes else []

-- `none` is `time_point::max()`.
wait_until : Waiting → Option ℕ → List Cqe
unfolding timespec_of
wait_until w none = awaited w.wait_cqe
wait_until w (some abs_time) =
    if leb abs_time w.now
    then []
    else awaited (w.wait_cqe_timeout (timespec_of (pos (abs_time - w.now))))

-- `cqes` are the completions that are in the ring already.
unfoldable pub suspend_until :
    Handler → Kernel → Waiting → Option ℕ → List Cqe → Pool → Scheduler → Option (Pool × Scheduler)
unfolding wait_until
suspend_until h k w abs_time cqes p s =
    drain_cqes h k (if is_empty cqes then wait_until w abs_time else cqes) p s

-- What a wait with a deadline passes to the kernel, and what then happens.
pub record WaitsFor (h : Handler) (k : Kernel) (w : Waiting) (span : ℕ) (p : Pool) (s : Scheduler)
    (result : Option (Pool × Scheduler)) : Type 0 where
  pub sec : ℕ
  pub nsec : ℕ
  pub whole : sec * 1_000_000_000 + nsec ≡ span
  pub below : nsec < 1_000_000_000
  pub handled :
      result
      ≡ drain_cqes h k
          (awaited (w.wait_cqe_timeout (record { tv_sec = pos sec; tv_nsec = pos nsec })))
          p
          s

-- A thread without a runnable fiber handles the completions that are in its ring, if there are any.
-- Else it waits: without a deadline, until a completion comes; with one ahead, for the time that is
-- left, in seconds and a number of nanoseconds below a second; and not at all, changing nothing, once
-- the deadline has come. Where the wait fails nothing is handled.
pub suspend_until_lem :
    (h : Handler) (k : Kernel) (w : Waiting) (p : Pool) (s : Scheduler)
    → ((c : Cqe) (cs : List Cqe) (deadline : Option ℕ)
        → suspend_until h k w deadline (c ∷ cs) p s ≡ drain_cqes h k (c ∷ cs) p s)
      × (suspend_until h k w none [] p s ≡ drain_cqes h k (awaited w.wait_cqe) p s)
      × ((deadline : ℕ)
          → deadline ≤ w.now
          → suspend_until h k w (some deadline) [] p s ≡ some (p, s))
      × ((deadline : ℕ)
          → w.now < deadline
          → WaitsFor h k w (deadline - w.now) p s (suspend_until h k w (some deadline) [] p s))
unfolding suspend_until timespec_of drain_cqes
suspend_until_lem h k w p s = (
  λ c cs deadline. refl,
  refl,
  λ deadline past. ground arith,
  λ deadline ahead. record {
    sec = (deadline - w.now) / 1_000_000_000;
    nsec = (deadline - w.now) % 1_000_000_000;
    whole = omega arith;
    below = omega arith;
    handled = ground arith;
  },
)

-- The worker in the middle after its completions were handled.
pub record Drained (s t : System) (p : Pool) (sched : Scheduler) (xs ys : List Worker)
    : Type 0 where
  pub pool : t.pool ≡ p
  pub worker : Worker
  pub placed : t.workers ≡ xs ++ worker ∷ ys
  pub scheduler : worker.sched ≡ sched
  pub none_left : worker.cqes ≡ []
  pub posted : t.posted ≡ s.posted
  pub writes : t.writes ≡ s.writes

module _ {h : Handler} {k : Kernel} where
  Reach-first : {s t u : System} → Step h k s t → Reach h k t u → Reach h k s u
  Reach-first st here = later here st
  Reach-first st (later r st') = later (Reach-first st r) st'

  -- The loop over the completions of one thread is a run of the pool's steps, in which the other
  -- threads do nothing: what holds of every state that the steps reach holds once the loop is over.
  pub drain_cqes-Reach :
      (cqes : List Cqe) (s : System) (xs : List Worker) (w : Worker) (ys : List Worker) (p : Pool)
      (sched : Scheduler)
      → s.workers ≡ xs ++ w ∷ ys
      → w.cqes ≡ cqes
      → drain_cqes h k cqes s.pool w.sched ≡ some (p, sched)
      → (t : System) × Reach h k s t × Drained s t p sched xs ys
  unfolding drain_cqes
  drain_cqes-Reach [] s xs w ys p sched e f d = (
    s,
    here,
    record {
      pool = ground arith;
      worker = w;
      placed = e;
      scheduler = ground arith;
      none_left = f;
      posted = refl;
      writes = refl;
    },
  )
  drain_cqes-Reach (c ∷ cs) s xs w ys p sched e f d =
      elim (Option-cases (handle_cqe h k c s.pool w.sched)) [
        | inl bad ↦ absurd (ground arith)
        | inr ((p1, s1), one) ↦
            let (t, r, end) =
              drain_cqes-Reach cs (after_handle c cs p1 s1 xs w ys s) xs
                (record { sched = s1; armed = w.armed || rearms c w.sched s1; cqes = cs }) ys p
                sched refl refl (ground arith) in
            (
              t,
              Reach-first (handles c cs p1 s1 xs w ys e f one) r,
              record {
                pool = end.pool;
                worker = end.worker;
                placed = end.placed;
                scheduler = end.scheduler;
                none_left = end.none_left;
                posted = end.posted;
                writes = end.writes;
              },
            )
      ]
