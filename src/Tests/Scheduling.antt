-- ===== src/Tests/Scheduling.antt =====
-- A pool of one thread that launches a task, and bulk operations.
use fiberexec.Base.{
  ◌*◌, pos, ◌≡◌, ◌≤◌, ◌<◌, ◌+◌, ◌⊎◌, refl, true, false, [], ◌∷◌, ◌++◌, none, some, length, arith,
  All,
}
use fiberexec.Runtime.Uring.{Op, prep, empty_ring, get_sqe, edit, submit}
use fiberexec.Scheduler.{Pool, Scheduler, Cqe, handle_cqe, enqueue, write_eventfd, may_exit}
use fiberexec.Scheduler.System as PoolSystem
use fiberexec.Scheduler.Wakeups.{WillRead, tasks_in_order, no_lost_wakeup}
use fiberexec.FiberBulk.{
  BulkTask, Phase, posted, caught, won, ran, last, finished, set_error, advance, receive_value,
  new_shared,
}
use fiberexec.FiberBulk.System as BulkSystem
use fiberexec.FiberBulk.Once.{completes_once}
use fiberexec.FiberBulk.Errors.{completes-IsRight}
use fiberexec.FiberBulk.Advance.{IsRight}
use fiberexec.FiberBulk.Progress.{bulk_ends, measure, steps}
use fiberexec.Tests.Fixtures.{kernel, kernel-Serves}

abbrev pool : Pool
pool = record {
  running = true;
  stop_requested = false;
  eventfd = pos 5;
  tokens = 0;
  in_flight = 0;
  work_queue = [];
  wakeups = 0;
}

abbrev scheduler : Scheduler
scheduler = record {
  ring = empty_ring;
  notify_fd = pos 6;
  work_efd_val = 160;
  notify_val = 168;
  ready = [];
  cancel_queue = 8 ∷ 16 ∷ [];
  notify_tokens = 0;
  launched = [];
  dispatched = [];
}

abbrev worker : PoolSystem.Worker
worker = record { sched = scheduler; armed = true; cqes = [] }

abbrev system : PoolSystem.System
system = record {
  pool = pool;
  workers = worker ∷ [];
  writes = 0;
  live = 0;
  posted = [];
  launched = [];
}

system-IsNew : PoolSystem.IsNew system
system-IsNew = record {
  running = refl;
  no_tokens = refl;
  no_work = refl;
  none_in_flight = refl;
  set_up = ((refl, refl), tt);
  no_writes = refl;
  none_live = refl;
  none_posted = refl;
  none_launched = refl;
}

abbrev ignore : PoolSystem.Handler
ignore tag res flags r = r

-- The task 7 is posted, and the thread reads its token.
abbrev posted_one : PoolSystem.System
posted_one = record system {
  pool = record pool { tokens = 1; work_queue = 7 ∷ [] };
  posted = 7 ∷ [];
}

posted_one-Reach : PoolSystem.Reach ignore kernel system posted_one
unfolding enqueue write_eventfd
posted_one-Reach =
    PoolSystem.later (PoolSystem.later PoolSystem.here (PoolSystem.enqueues 7))
      (PoolSystem.writes_token 0 refl)

no_lost_wakeup_example :
    (1 ≡ 1 + 0 + 0) × ((1 ≤ 0) ⊎ (1 ≤ 0) ⊎ ((1 ≤ 1) × All WillRead (worker ∷ [])))
no_lost_wakeup_example =
    no_lost_wakeup kernel-Serves system-IsNew posted_one-Reach refl (omega arith)

abbrev read_one : PoolSystem.System
read_one = PoolSystem.after_read 0 [] worker [] posted_one

abbrev launched_pool : Pool
launched_pool = record pool { in_flight = 1 }

abbrev rearmed : Scheduler
rearmed = record scheduler {
  ring = record {
    sq = [];
    sent = (record (prep (Op.read (pos 5) 160 8 0)) { user_data = 0 } ∷ []) ∷ [];
  };
  launched = 7 ∷ [];
}

abbrev launched_one : PoolSystem.System
launched_one =
    PoolSystem.after_handle PoolSystem.token [] launched_pool rearmed []
      (record worker { armed = false; cqes = PoolSystem.token ∷ [] }) [] read_one

launched_one-Reach : PoolSystem.Reach ignore kernel system launched_one
unfolding handle_cqe get_sqe edit submit
launched_one-Reach =
    PoolSystem.later
      (PoolSystem.later posted_one-Reach (PoolSystem.reads 0 [] worker [] refl refl refl))
      (PoolSystem.handles PoolSystem.token [] launched_pool rearmed []
        (record worker { armed = false; cqes = PoolSystem.token ∷ [] }) [] refl refl refl)

tasks_in_order_example :
    (launched_one.launched ++ launched_one.pool.work_queue ≡ 7 ∷ [])
    × (launched_one.pool.in_flight ≡ 1)
    × (may_exit launched_one.pool ≡ true → launched_one.live ≡ 0)
tasks_in_order_example = tasks_in_order system-IsNew launched_one-Reach

abbrev notified : Cqe
notified = record { tag = 1; res = pos 8; flags = 0 }

-- A bulk operation of one index, whose call throws the exception 3.
abbrev throws : BulkSystem.Fun
throws i j tok = some 3

abbrev task : BulkTask
task = record { index = 0; tok = none }

abbrev at_phase : Phase → BulkSystem.Fiber
at_phase p = record { work = task; phase = p }

abbrev after : Phase → BulkSystem.System → BulkSystem.System
after p s = BulkSystem.after_advance throws [] (at_phase p) [] s

abbrev posted_task : BulkSystem.System
posted_task = record (BulkSystem.started 1 none) { unposted = []; fibers = at_phase posted ∷ [] }

abbrev ended : BulkSystem.System
ended = after last (after ran (after (won 3) (after (caught 3) (after posted posted_task))))

ended-Reach : BulkSystem.Reach throws (BulkSystem.started 1 none) ended
unfolding advance receive_value new_shared
ended-Reach =
    BulkSystem.later
      (BulkSystem.later
        (BulkSystem.later
          (BulkSystem.later
            (BulkSystem.later (BulkSystem.later BulkSystem.here (BulkSystem.posts task [] refl))
              (BulkSystem.runs [] (at_phase posted) [] refl (λ e. ground arith)))
            (BulkSystem.runs [] (at_phase (caught 3)) [] refl (λ e. ground arith)))
          (BulkSystem.runs [] (at_phase (won 3)) [] refl (λ e. ground arith)))
        (BulkSystem.runs [] (at_phase ran) [] refl (λ e. ground arith)))
      (BulkSystem.runs [] (at_phase last) [] refl (λ e. ground arith))

completes_once_example :
    (length ended.shared.completions ≤ 1)
    × (1 ≤ length ended.shared.completions
        → (ended.unposted ≡ []) × All (λ (f : BulkSystem.Fiber). f.phase ≡ finished) ended.fibers)
completes_once_example = completes_once 1 none ended-Reach

completes-IsRight_example : All (IsRight (3 ∷ [])) (set_error (some 3) ∷ [])
unfolding advance receive_value new_shared
completes-IsRight_example = completes-IsRight 1 none ended-Reach

bulk_ends_example :
    (ended.shared.completions ≡ [] → (u : BulkSystem.System) × BulkSystem.Step throws ended u)
    × ((u : BulkSystem.System) → BulkSystem.Step throws ended u → measure u < measure ended)
    × (steps ended-Reach + measure ended ≤ 6 * 1)
bulk_ends_example = bulk_ends 1 none ended-Reach
