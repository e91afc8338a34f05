-- ===== src/Tests/Pools.antt =====
-- A pool that is set up, its thread that waits, its end, and senders on it.
use fiberexec.Base.{
  ℕ, pos, minus, ◌≡◌, ◌<◌, ◌⊎◌, refl, ℤ, true, false, [], ◌∷◌, none, some, is_some, map, arith,
  bit_ceil,
}
use fiberexec.Base.Range.{range}
use fiberexec.Runtime.Abi.{einval}
use fiberexec.Runtime.Thread.{ok, err, runtime_error, Thread}
use fiberexec.AsyncIo.Request.{Request}
use fiberexec.Scheduler.{Pool, Scheduler, Cqe, drain_cqes, stop}
use fiberexec.Scheduler.System as PoolSystem
use fiberexec.Scheduler.Setup.{Os, ContextOptions, Resources, blank, set_up}
use fiberexec.Scheduler.Setup.Rings.{started, two_reads}
use fiberexec.Scheduler.Setup.Locals as Locals
use fiberexec.Scheduler.Setup.Locals.{set_up_lem}
use fiberexec.Scheduler.Suspend.{Waiting, drain_cqes-Reach, Drained}
use fiberexec.Scheduler.Shutdown as Shutdown
use fiberexec.Scheduler.Shutdown.Solo.{solo_leaves, distance}
use fiberexec.Scheduler.Shutdown.Stranded.{worker-IsStranded}
use fiberexec.FixedBufferPool as Buffers
use fiberexec.FixedFdTable as Files
use fiberexec.FixedFdTable.Slots.{IsTable}
use fiberexec.FiberBulk.System as BulkSystem
use fiberexec.Context.{ScheduleSender}
use fiberexec.Context.Bridge as Bridge
use fiberexec.Context.Bulk.{bulk_launched, launch, started_bulk, fresh, post_all, task_of}
use fiberexec.Tests.Fixtures.{kernel, thread, list_channel, list_channel-IsDocumented}

-- A machine whose kernel does not know the flags of the ring.
abbrev os : Os
os = record {
  eventfd = pos 5;
  errno = 0;
  queue_init_params = λ n flags. minus einval;
  queue_init = λ n flags. pos 0;
}

abbrev pool : Pool
pool = record {
  running = true;
  stop_requested = false;
  eventfd = pos 5;
  tokens = 0;
  in_flight = 0;
  work_queue = [];
  wakeups = 0;
}

abbrev scheduler : Scheduler
scheduler = record (blank (pos 5) 160 168) { ring = two_reads pool (blank (pos 5) 160 168) }

abbrev options : ContextOptions
options = record {
  thread_count = 1;
  stack_size = 4096;
  fixed_buffer_size = 16;
  fixed_buffer_count = 2;
  registered_fd_capacity = 0;
}

options-Allows : Locals.Allows list_channel-IsDocumented options kernel thread
unfolding bit_ceil
options-Allows = record {
  on_worker = refl;
  few_buffers = λ e. omega arith;
  buffers = λ e. refl;
  few_files = λ e. omega arith;
  files = λ e. refl;
}

set_up_lem_example :
    (r : Resources list_channel) × (set_up list_channel 96 104 options kernel thread
      ≡ (ok (some r), thread))
    × (is_some r.buffers ≡ true)
    × ((p : Buffers.Pool list_channel)
        → r.buffers ≡ some p
        → Locals.AreFree list_channel-IsDocumented options p)
    × (is_some r.files ≡ false)
    × ((tbl : Files.Table list_channel)
        → r.files ≡ some tbl
        → IsTable list_channel-IsDocumented 0 tbl [])
    × (Locals.wants_buffers options ≡ false
        → Buffers.borrow_fixed_buffer list_channel r.buffers
          ≡ some (err (runtime_error Locals.no_buffers), none))
    × ((fd : ℤ)
        → Locals.wants_files options ≡ false
        → Files.acquire_fd_slot list_channel kernel thread.ring fd r.files
          ≡ some (err (runtime_error Locals.no_files), none))
set_up_lem_example =
    set_up_lem list_channel-IsDocumented 96 104 options kernel thread options-Allows

abbrev ignore : PoolSystem.Handler
ignore tag res flags r = r

-- Half past the second second, with nothing to come.
abbrev quiet : Waiting
quiet = record {
  now = 2_500_000_000;
  wait_cqe = (pos 0, []);
  wait_cqe_timeout = λ ts. (minus 62, []);
}

-- A thread with the completion of a cancellation, which nobody waits for.
abbrev cancelled : Cqe
cancelled = record { tag = 2; res = pos 0; flags = 0 }

abbrev worker : PoolSystem.Worker
worker = record { sched = scheduler; armed = true; cqes = cancelled ∷ [] }

abbrev system : PoolSystem.System
system = record (started pool []) { workers = worker ∷ [] }

drain_cqes-Reach_example :
    (t : PoolSystem.System) × PoolSystem.Reach ignore kernel system t
    × Drained system t pool scheduler [] []
unfolding drain_cqes
drain_cqes-Reach_example =
    drain_cqes-Reach (cancelled ∷ []) system [] worker [] pool scheduler refl refl refl

-- A stopped pool with a task in its queue.
abbrev late : PoolSystem.System
late = record (started pool []) { pool = record pool { running = false; work_queue = 7 ∷ [] } }

abbrev later_still : PoolSystem.System
later_still = record late {
  pool = record late.pool { work_queue = 7 ∷ 8 ∷ [] };
  writes = 1;
  posted = 8 ∷ [];
}

-- Pools of one thread and of two, at their start.
abbrev entering : ℕ → Shutdown.System
entering n = record {
  pool = pool;
  count = n;
  threads = λ i. record { stage = Shutdown.notified; live = 0; notifying = false };
  mutex_held = false;
}

entering-IsNew : (n : ℕ) → Shutdown.IsNew (entering n)
entering-IsNew n = record {
  running = refl;
  none_in_flight = refl;
  free = refl;
  entering = λ i. refl;
}

abbrev stopped_solo : Shutdown.System
stopped_solo = Shutdown.after_stop (entering 1)

solo_leaves_example :
    (((stopped_solo.threads 0).stage ≡ Shutdown.left)
      ⊎ ((u : Shutdown.System) × Shutdown.Step stopped_solo u))
    × ((u : Shutdown.System)
        → Shutdown.Step stopped_solo u
        → ((u.pool.running ≡ false) × (u.pool.in_flight ≡ 0))
          × (distance u < distance stopped_solo))
unfolding stop
solo_leaves_example =
    solo_leaves {s = entering 1} refl (entering-IsNew 1)
      (Shutdown.later Shutdown.here (Shutdown.stops refl refl)) refl refl

worker-IsStranded_example :
    (t : Shutdown.System) × Shutdown.Reach (entering 2) t × Shutdown.IsStranded t 0
worker-IsStranded_example = worker-IsStranded (entering 2) refl (entering-IsNew 2)

abbrev child : ScheduleSender
child = record { ctx = 64 }

-- A schedule that is started, and whose receiver's token is then stopped.
abbrev sent_and_stopped : Bridge.Sending
sent_and_stopped = record {
  op = record { ctx = 64; env_tok = some true; fiber_stop = some true; stop_cb = true };
  is_started = true;
  queued = 1;
  ran = 0;
}

bulk_launched_example :
    (launch (started_bulk 7 child 2 none pool) kernel (fresh thread) ≡ (
      ok ((BulkSystem.started 2 none).shared, (BulkSystem.started 2 none).unposted),
      record thread { fiber_stop = none },
    ))
    × ((BulkSystem.started 2 none).unposted ≡ map (task_of none) (range 2))
    × ((post_all (λ t. t.index) (BulkSystem.started 2 none).unposted pool).work_queue ≡ 0 ∷ 1 ∷ [])
    × ((post_all (λ t. t.index) (BulkSystem.started 2 none).unposted pool).tokens ≡ 2)
bulk_launched_example = bulk_launched 7 child 2 none pool pool kernel thread (λ t. t.index)
