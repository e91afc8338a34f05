-- ===== src/Context/Bridge.antt =====
-- A fiber that a schedule starts sees the stop token of the receiver, whenever that is stopped.
use fiberexec.Base.{◌-◌, length, ℕ, suc, ◌≡◌, Bool, true, false, none, arith, if◌then◌else◌, ◌+◌}
use fiberexec.Runtime.Thread.{Thread}
use fiberexec.FiberOps.{StopToken, stop_possible}
use fiberexec.AsyncIo.Request.{Request}
use fiberexec.Scheduler.{Pool}
use fiberexec.Context.{Operation, ScheduleSender, connect, start, request_stop}

-- `queued` and `ran` count the tasks of the operation that were posted and did not run yet, and those
-- that ran, each of which completes the receiver once.
pub record Sending : Type 0 where
  pub op : Operation
  pub is_started : Bool
  pub queued : ℕ
  pub ran : ℕ

abbrev pub connected : ScheduleSender → StopToken → Sending
connected sndr tok = record { op = connect sndr tok; is_started = false; queued = 0; ran = 0 }

abbrev pub after_start : ℕ → Pool → Sending → Sending
after_start work p s = record {
  op = (start work s.op p).0;
  is_started = true;
  queued = s.queued + (length (start work s.op p).1.work_queue - length p.work_queue);
  ran = s.ran;
}

-- `start` posts tasks to the pool: those that its queue is longer by. An operation is started once; the receiver's token is stopped whenever its owner likes.
pub data Step (s : Sending) : Sending → Type 0 where
  starts : (work : ℕ) (p : Pool) → s.is_started ≡ false → Step s (after_start work p s)
  stops : Step s (record s { op = request_stop s.op })
  runs : (n : ℕ) → s.queued ≡ suc n → Step s (record s { queued = n; ran = suc s.ran })

pub data Reach (s : Sending) : Sending → Type 0 where
  here : Reach s s
  later : {t u : Sending} → Reach s t → Step t u → Reach s u

record Inv (s : Sending) : Type 0 where
  before : s.is_started ≡ false → (s.op.fiber_stop ≡ none) × (s.op.stop_cb ≡ false)
  same : s.is_started ≡ true → s.op.fiber_stop ≡ s.op.env_tok
  engaged : s.is_started ≡ true → s.op.stop_cb ≡ stop_possible s.op.env_tok
  once : s.queued + s.ran ≡ (if s.is_started then 1 else 0)

-- The token that a task finds once its operation was started.
pub start-token :
    (sndr : ScheduleSender) (tok : StopToken) (work : ℕ) (p : Pool)
    → (start work (connect sndr tok) p).0.fiber_stop ≡ tok
unfolding start connect
start-token sndr tok work p = ground arith
