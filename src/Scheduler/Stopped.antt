-- ===== src/Scheduler/Stopped.antt =====
-- What becomes of tasks that are still queued when the pool is stopped.
use fiberexec.Base.{ℕ, ◌≡◌, false, List, ◌++◌}
use fiberexec.Scheduler.System.{System}

-- What a step does once the pool was stopped: it launches nothing, and takes nothing from the queue.
record Keeps (s t : System) : Type 0 where
  off : t.pool.running ≡ false
  launched : t.launched ≡ s.launched
  more : List ℕ
  queue : t.pool.work_queue ≡ s.pool.work_queue ++ more
