-- ===== src/Scheduler/Shutdown.antt =====
-- src/fiber_context.cpp, the end of a pool: the wait of each worker's main fiber on `shutdown_cv_` (the end of
-- `fiber_pool::worker`), the ends of fibers on their threads, and `stop`, in any interleaving. The
-- fibers of a thread, the main fiber among them, take turns: they switch only where one waits.
pub mod Solo
pub mod Stranded
use fiberexec.Base.{
  ℕ, suc, ◌==◌, ◌≡◌, ◌≢◌, ◌≤◌, ◌<◌, Bool, true, false, not, ◌&&◌, if◌then◌else◌, ltb, arith, refl,
  ◌⊎◌, inl, inr,
}
use fiberexec.Scheduler.{Pool, may_exit, fiber_done, stop}

-- Where the main fiber is: it has the mutex and is about to test the condition; it found it false
-- and is not yet in the queue of the condition variable; it is in that queue; it was notified and
-- has to take the mutex again; it left.
pub data Stage : Type 0 where
  testing decided sleeping notified left : Stage

-- `notifying` is whether a fiber of the thread was the last one in flight and has yet to call
-- `notify_all`.
pub record Thread : Type 0 where
  pub stage : Stage
  pub live : ℕ
  pub notifying : Bool

pub record System : Type 0 where
  pub pool : Pool
  pub count : ℕ
  pub threads : ℕ → Thread
  pub mutex_held : Bool

-- The main fiber is in no way of the other fibers of its thread.
abbrev pub is_parked : Stage → Bool
is_parked sleeping = true
is_parked notified = true
is_parked testing = false
is_parked decided = false
is_parked left = false

abbrev pub is_left : Stage → Bool
is_left left = true
is_left testing = false
is_left decided = false
is_left sleeping = false
is_left notified = false

abbrev woken : Stage → Stage
woken sleeping = notified
woken notified = notified
woken testing = testing
woken decided = decided
woken left = left

abbrev pub put : (ℕ → Thread) → ℕ → Thread → ℕ → Thread
put ts i w j = if j == i then w else ts j

-- `notify_all` takes every waiting fiber out of the queue of the condition variable.
abbrev pub notify_all : (ℕ → Thread) → ℕ → Thread
notify_all ts j = record (ts j) { stage = woken (ts j).stage }

-- The stage of the main fiber that tests the condition.
abbrev pub tested : Pool → Stage
tested p = if may_exit p then left else decided

abbrev pub was_last : Pool → Bool
was_last p = ltb p.wakeups (fiber_done p).wakeups

abbrev pub after_launch : ℕ → System → System
after_launch i s = record s {
  pool = record s.pool { in_flight = suc s.pool.in_flight };
  threads = put s.threads i (record (s.threads i) { live = suc (s.threads i).live });
}

abbrev pub after_end : ℕ → ℕ → System → System
after_end i n s = record s {
  pool = fiber_done s.pool;
  threads = put s.threads i (record (s.threads i) { live = n; notifying = was_last s.pool });
}

abbrev pub after_notify : ℕ → System → System
after_notify i s = record s {
  threads = notify_all (put s.threads i (record (s.threads i) { notifying = false }));
}

abbrev pub after_stop : System → System
after_stop s = record s { pool = stop s.pool; threads = notify_all s.threads }

abbrev pub at_stage : ℕ → Stage → Bool → System → System
at_stage i g held s = record s {
  threads = put s.threads i (record (s.threads i) { stage = g });
  mutex_held = held;
}

-- `stop` holds the mutex from its store to its `notify_all`; the last fiber does not take it.
pub data Step (s : System) : System → Type 0 where
  launches :
      (i : ℕ)
      → i < s.count
      → s.pool.running ≡ true
      → is_parked (s.threads i).stage ≡ true
      → (s.threads i).notifying ≡ false
      → Step s (after_launch i s)
  ends :
      (i n : ℕ)
      → i < s.count
      → (s.threads i).live ≡ suc n
      → is_parked (s.threads i).stage ≡ true
      → (s.threads i).notifying ≡ false
      → Step s (after_end i n s)
  notifies : (i : ℕ) → i < s.count → (s.threads i).notifying ≡ true → Step s (after_notify i s)
  stops : s.pool.running ≡ true → s.mutex_held ≡ false → Step s (after_stop s)
  locks :
      (i : ℕ)
      → i < s.count
      → (s.threads i).stage ≡ notified
      → (s.threads i).notifying ≡ false
      → s.mutex_held ≡ false
      → Step s (at_stage i testing true s)
  tests :
      (i : ℕ)
      → i < s.count
      → (s.threads i).stage ≡ testing
      → Step s (at_stage i (tested s.pool) (not (may_exit s.pool)) s)
  sleeps :
      (i : ℕ) → i < s.count → (s.threads i).stage ≡ decided → Step s (at_stage i sleeping false s)

pub data Reach (s : System) : System → Type 0 where
  here : Reach s s
  later : {t u : System} → Reach s t → Step t u → Reach s u

-- Every main fiber is about to take the mutex for the first time.
pub record IsNew (s : System) : Type 0 where
  pub running : s.pool.running ≡ true
  pub none_in_flight : s.pool.in_flight ≡ 0
  pub free : s.mutex_held ≡ false
  pub entering : (i : ℕ) → s.threads i ≡ record { stage = notified; live = 0; notifying = false }

-- Some worker never leaves: the pool is stopped, no fiber is left, and nothing can happen any more.
pub record IsStranded (s : System) (i : ℕ) : Type 0 where
  pub stopped : s.pool.running ≡ false
  pub none_in_flight : s.pool.in_flight ≡ 0
  pub worker : i < s.count
  pub not_left : (s.threads i).stage ≢ left
  pub no_step : {t : System} → ¬ Step s t
