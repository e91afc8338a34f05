-- ===== src/Scheduler/Shutdown/Stranded.antt =====
-- A pool of two threads may never come to its end: the last fiber calls `notify_all` without the mutex.
use fiberexec.Base.{ℕ, ◌≡◌, Bool, true, false, not, arith}
use fiberexec.Scheduler.{may_exit, fiber_done, stop}
use fiberexec.Scheduler.Shutdown.{
  Stage, testing, decided, sleeping, notified, left, Thread, System, after_launch, after_end,
  after_notify, after_stop, at_stage, tested, Step, launches, ends, notifies, stops, locks, tests,
  sleeps, Reach, here, later, IsNew, IsStranded,
}

-- A worker asleep beside one that has left.
record IsAsleep (s : System) : Type 0 where
  two : s.count ≡ 2
  off : s.pool.running ≡ false
  drained : s.pool.in_flight ≡ 0
  first : s.threads 0 ≡ record { stage = sleeping; live = 0; notifying = false }
  second : s.threads 1 ≡ record { stage = left; live = 0; notifying = false }

asleep_no_step : {s t : System} → IsAsleep s → ¬ Step s t
asleep_no_step a (launches i b run p q) = ground arith
asleep_no_step a (ends i n b e p q) = ground arith
asleep_no_step a (notifies i b q) = ground arith
asleep_no_step a (stops run free) = ground arith
asleep_no_step a (locks i b e q free) = ground arith
asleep_no_step a (tests i b e) = ground arith
asleep_no_step a (sleeps i b e) = ground arith

abbrev at : Stage → ℕ → Bool → Thread
at g n b = record { stage = g; live = n; notifying = b }

-- What matters of a pool of two threads.
record Looks (s : System) (run held : Bool) (n : ℕ) (a b : Thread) : Type 0 where
  two : s.count ≡ 2
  running : s.pool.running ≡ run
  holding : s.mutex_held ≡ held
  in_flight : s.pool.in_flight ≡ n
  first : s.threads 0 ≡ a
  second : s.threads 1 ≡ b

abbrev Leads : System → Bool → Bool → ℕ → Thread → Thread → Type 0
Leads s run held n a b = (t : System) × Reach s t × Looks t run held n a b

module _ {s t : System} (r : Reach s t) where
  launched :
      Looks t true false 0 (at notified 0 false) (at notified 0 false)
      → Leads s true false 1 (at notified 0 false) (at notified 1 false)
  launched l = (
    after_launch 1 t,
    later r (launches 1 (ground arith) l.running (ground arith) (ground arith)),
    ground arith,
  )

  stopped :
      Looks t true false 1 (at notified 0 false) (at notified 1 false)
      → Leads s false false 1 (at notified 0 false) (at notified 1 false)
  unfolding stop
  stopped l = (after_stop t, later r (stops l.running l.holding), ground arith)

  locked :
      Looks t false false 1 (at notified 0 false) (at notified 1 false)
      → Leads s false true 1 (at testing 0 false) (at notified 1 false)
  locked l = (
    at_stage 0 testing true t,
    later r (locks 0 (ground arith) (ground arith) (ground arith) l.holding),
    ground arith,
  )

  found_one :
      Looks t false true 1 (at testing 0 false) (at notified 1 false)
      → Leads s false true 1 (at decided 0 false) (at notified 1 false)
  unfolding may_exit
  found_one l = (
    at_stage 0 (tested t.pool) (not (may_exit t.pool)) t,
    later r (tests 0 (ground arith) (ground arith)),
    ground arith,
  )

  ended :
      Looks t false true 1 (at decided 0 false) (at notified 1 false)
      → Leads s false true 0 (at decided 0 false) (at notified 0 true)
  unfolding fiber_done
  ended l = (
    after_end 1 0 t,
    later r (ends 1 0 (ground arith) (ground arith) (ground arith) (ground arith)),
    ground arith,
  )

  notified_nobody :
      Looks t false true 0 (at decided 0 false) (at notified 0 true)
      → Leads s false true 0 (at decided 0 false) (at notified 0 false)
  notified_nobody l =
      (after_notify 1 t, later r (notifies 1 (ground arith) (ground arith)), ground arith)

  slept :
      Looks t false true 0 (at decided 0 false) (at notified 0 false)
      → Leads s false false 0 (at sleeping 0 false) (at notified 0 false)
  slept l =
      (at_stage 0 sleeping false t, later r (sleeps 0 (ground arith) (ground arith)), ground arith)

  other_locked :
      Looks t false false 0 (at sleeping 0 false) (at notified 0 false)
      → Leads s false true 0 (at sleeping 0 false) (at testing 0 false)
  other_locked l = (
    at_stage 1 testing true t,
    later r (locks 1 (ground arith) (ground arith) (ground arith) l.holding),
    ground arith,
  )

  other_left :
      Looks t false true 0 (at sleeping 0 false) (at testing 0 false)
      → Leads s false false 0 (at sleeping 0 false) (at left 0 false)
  unfolding may_exit
  other_left l = (
    at_stage 1 (tested t.pool) (not (may_exit t.pool)) t,
    later r (tests 1 (ground arith) (ground arith)),
    ground arith,
  )

  is_stranded :
      Looks t false false 0 (at sleeping 0 false) (at left 0 false)
      → (u : System) × Reach s u × IsStranded u 0
  is_stranded l = (
    t,
    r,
    record {
      stopped = l.running;
      none_in_flight = l.in_flight;
      worker = ground arith;
      not_left = ground arith;
      no_step = asleep_no_step (record {
        two = l.two;
        off = l.running;
        drained = l.in_flight;
        first = l.first;
        second = l.second;
      });
    },
  )

-- From every new pool of two threads a run leads to a state in which the pool is stopped and no fiber
-- is in flight, and yet the first worker sleeps and no step is possible: it found a fiber in flight,
-- and the fiber ended and notified before the worker was in the queue of the condition variable.
pub worker-IsStranded :
    (s : System) → s.count ≡ 2 → IsNew s → (t : System) × Reach s t × IsStranded t 0
worker-IsStranded s two n =
    let (s1, r1, l1) = launched here new_looks in
    let (s2, r2, l2) = stopped r1 l1 in
    let (s3, r3, l3) = locked r2 l2 in
    let (s4, r4, l4) = found_one r3 l3 in
    let (s5, r5, l5) = ended r4 l4 in
    let (s6, r6, l6) = notified_nobody r5 l5 in
    let (s7, r7, l7) = slept r6 l6 in
    let (s8, r8, l8) = other_locked r7 l7 in
    let (s9, r9, l9) = other_left r8 l8 in is_stranded r9 l9
  where
    new_looks : Looks s true false 0 (at notified 0 false) (at notified 0 false)
    new_looks = record {
      two = two;
      running = n.running;
      holding = n.free;
      in_flight = n.none_in_flight;
      first = n.entering 0;
      second = n.entering 1;
    }
