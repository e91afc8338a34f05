-- ===== src/Scheduler/System.antt =====
-- The pool with its threads: posts in their two parts, the kernel's reads of the eventfd, the
-- completions that the threads handle, the ends of fibers and the stop, in any interleaving.
use fiberexec.Base.{
  ℕ, suc, ◌+◌, ◌==◌, ℤ, pos, is_neg, ◌≡◌, ◌≢◌, Bool, true, false, not, ◌&&◌, ◌||◌, List, [], ◌∷◌,
  ◌++◌, some, length, All, ltb,
}
use fiberexec.Runtime.Uring.{Ring, Kernel}
use fiberexec.FiberOps.{k_work_tag}
use fiberexec.Scheduler.{Pool, Scheduler, Cqe, enqueue, write_eventfd, stop, fiber_done, handle_cqe}

-- `armed` is whether the kernel holds a read of the pool's eventfd for this thread, `cqes` the
-- completions in its ring, oldest first.
pub record Worker : Type 0 where
  pub sched : Scheduler
  pub armed : Bool
  pub cqes : List Cqe

-- `writes` are posts that did not write to the eventfd yet, `live` the launched fibers that did not
-- end; `posted` and `launched` are all tasks so far, in order.
pub record System : Type 0 where
  pub pool : Pool
  pub workers : List Worker
  pub writes : ℕ
  pub live : ℕ
  pub posted : List ℕ
  pub launched : List ℕ

abbrev pub Handler : Type 0
Handler = ℕ → ℤ → ℕ → Ring → Ring

-- A completion that brings a token of the pool's eventfd.
abbrev pub is_token : Cqe → Bool
is_token c = (c.tag == k_work_tag) && not (is_neg c.res)

-- A completion that says that a read of it failed.
abbrev pub is_failed : Cqe → Bool
is_failed c = (c.tag == k_work_tag) && is_neg c.res

-- What a list that grew at its end has more than before.
abbrev pub added : (before after : List ℕ) → List ℕ
added [] ys = ys
added (x ∷ xs) [] = []
added (x ∷ xs) (y ∷ ys) = added xs ys

abbrev pub token : Cqe
token = record { tag = k_work_tag; res = pos 8; flags = 0 }

abbrev pub failed_read : ℤ → Cqe
failed_read res = record { tag = k_work_tag; res = res; flags = 0 }

abbrev pub after_failure : ℤ → List Worker → Worker → List Worker → System → System
after_failure res xs w ys s = record s {
  workers = xs ++ record w { armed = false; cqes = w.cqes ++ (failed_read res ∷ []) } ∷ ys;
}

abbrev pub after_read : ℕ → List Worker → Worker → List Worker → System → System
after_read n xs w ys s = record s {
  pool = record s.pool { tokens = n };
  workers = xs ++ record w { armed = false; cqes = w.cqes ++ (token ∷ []) } ∷ ys;
}

-- Whether a thread handed a read to the kernel when it handled a completion of the eventfd.
abbrev pub rearms : Cqe → Scheduler → Scheduler → Bool
rearms c s s' = (c.tag == k_work_tag) && ltb (length s.ring.sent) (length s'.ring.sent)

-- The tasks that a thread launches while it handles a completion are those that it made fibers of.
abbrev pub after_handle :
    Cqe → List Cqe → Pool → Scheduler → List Worker → Worker → List Worker → System → System
after_handle c cs p sched xs w ys s = record s {
  pool = p;
  workers =
      xs ++ record { sched = sched; armed = w.armed || rearms c w.sched sched; cqes = cs } ∷ ys;
  live = s.live + length (added w.sched.launched sched.launched);
  launched = s.launched ++ added w.sched.launched sched.launched;
}

-- A read that was armed takes a token, or fails and takes none; other completions arrive at any time.
pub data Step (h : Handler) (k : Kernel) (s : System) : System → Type 0 where
  enqueues :
      (work : ℕ)
      → Step h k s (record s {
        pool = enqueue work s.pool;
        writes = suc s.writes;
        posted = s.posted ++ (work ∷ []);
      })
  writes_token :
      (n : ℕ) → s.writes ≡ suc n → Step h k s (record s { pool = write_eventfd s.pool; writes = n })
  reads :
      (n : ℕ) (xs : List Worker) (w : Worker) (ys : List Worker)
      → s.pool.tokens ≡ suc n
      → s.workers ≡ xs ++ w ∷ ys
      → w.armed ≡ true
      → Step h k s (after_read n xs w ys s)
  read_fails :
      (res : ℤ) (xs : List Worker) (w : Worker) (ys : List Worker)
      → is_neg res ≡ true
      → s.workers ≡ xs ++ w ∷ ys
      → w.armed ≡ true
      → Step h k s (after_failure res xs w ys s)
  arrives :
      (c : Cqe) (xs : List Worker) (w : Worker) (ys : List Worker)
      → s.workers ≡ xs ++ w ∷ ys
      → c.tag ≢ k_work_tag
      → Step h k s (record s { workers = xs ++ record w { cqes = w.cqes ++ (c ∷ []) } ∷ ys })
  handles :
      (c : Cqe) (cs : List Cqe) (p : Pool) (sched : Scheduler) (xs : List Worker) (w : Worker)
      (ys : List Worker)
      → s.workers ≡ xs ++ w ∷ ys
      → w.cqes ≡ c ∷ cs
      → handle_cqe h k c s.pool w.sched ≡ some (p, sched)
      → Step h k s (after_handle c cs p sched xs w ys s)
  ends : (n : ℕ) → s.live ≡ suc n → Step h k s (record s { pool = fiber_done s.pool; live = n })
  stops : Step h k s (record s { pool = stop s.pool })

pub data Reach (h : Handler) (k : Kernel) (s : System) : System → Type 0 where
  here : Reach h k s s
  later : {t u : System} → Reach h k s t → Step h k t u → Reach h k s u

-- A pool whose threads are set up: each has armed its read, and nothing was posted.
pub record IsNew (s : System) : Type 0 where
  pub running : s.pool.running ≡ true
  pub no_tokens : s.pool.tokens ≡ 0
  pub no_work : s.pool.work_queue ≡ []
  pub none_in_flight : s.pool.in_flight ≡ 0
  pub set_up : All (λ (w : Worker). (w.armed ≡ true) × (w.cqes ≡ [])) s.workers
  pub no_writes : s.writes ≡ 0
  pub none_live : s.live ≡ 0
  pub none_posted : s.posted ≡ []
  pub none_launched : s.launched ≡ []
