-- ===== src/Tests/Senders.antt =====
-- Fibers that wait for senders.
use fiberexec.Base.{ℕ, pos, ◌≡◌, ◌<◌, ◌⊎◌, refl, true, false, [], ◌∷◌, some}
use fiberexec.Runtime.Uring.{Kernel}
use fiberexec.Runtime.Thread.{Thread, ok}
use fiberexec.Scheduler.{Pool}
use fiberexec.Scheduler.Setup.{default_options}
use fiberexec.Context.{Context, schedule, get_scheduler}
use fiberexec.Run.{Body, by, complete_by}
use fiberexec.Run.Sender.{run, run_closure, task_of_run, connect_run, start_run}
use fiberexec.SyncWait.{wait_on, new_state, set_value}
use fiberexec.SyncWait.Handshake.{
  Call, value, Handshake, begun, returned, left, uses_state, is_alive, Step, copies, enters, stores,
  notifies, locks, tests, Reach, here, later, result_of, apply, notified,
}
use fiberexec.SyncWait.Handshake.Ends.{handshake_ends, remaining}
use fiberexec.SyncWait.Handshake.Runs.{fiber_awaits_run, started_run}
use fiberexec.Tests.Fixtures.{kernel, thread}

abbrev pool : Pool
pool = record {
  running = true;
  stop_requested = false;
  eventfd = pos 5;
  tokens = 0;
  in_flight = 0;
  work_queue = [];
  wakeups = 0;
}

abbrev answer : Call ℕ
answer = value 3

-- The completer is done; the waiter has just woken.
abbrev halfway : Handshake ℕ
halfway = record {
  state = apply answer new_state;
  completer = returned;
  waiter = notified;
  mutex_held = false;
}

halfway-Reach : Reach answer begun halfway
halfway-Reach =
    later (later (later (later here (copies refl)) (enters refl refl)) (stores refl))
      (notifies refl)

abbrev done : Handshake ℕ
done = record halfway { waiter = left }

done-Reach : Reach answer begun done
unfolding new_state set_value
done-Reach = later (later halfway-Reach (locks refl refl)) (tests refl)

handshake_ends_example :
    (((halfway.completer ≡ returned) × (halfway.waiter ≡ left))
      ⊎ ((u : Handshake ℕ) × Step answer halfway u))
    × ((u : Handshake ℕ) → Step answer halfway u → remaining answer u < remaining answer halfway)
    × (uses_state halfway.completer ≡ true → is_alive halfway ≡ true)
    × ((k : Kernel) (th : Thread)
        → halfway.waiter ≡ left
        → (wait_on halfway.state k th).0 ≡ result_of answer)
handshake_ends_example = handshake_ends answer halfway-Reach

abbrev context : Context
context = record { self = 64; options = default_options 4; pool = pool }

abbrev three : Body ℕ
three k t = (by (ok 3), t)

fiber_awaits_run_example :
    ((started_run context three 7 pool).1.work_queue ≡ 7 ∷ [])
    × ((started_run context three 7 pool).1.tokens ≡ 1)
    × (run_closure three (schedule (get_scheduler context)) ≡ run (get_scheduler context) three)
    × ((wait_on done.state kernel thread).0 ≡ ok (some (some 3)))
unfolding complete_by task_of_run start_run connect_run run
fiber_awaits_run_example =
    fiber_awaits_run context three 7 pool kernel thread thread answer refl done-Reach refl
