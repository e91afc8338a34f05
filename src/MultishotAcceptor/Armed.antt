-- ===== src/MultishotAcceptor/Armed.antt =====
-- Whether the kernel still holds the accept entry: while the fiber waits, after a full ring, and
-- after a stop.
use fiberexec.Base.{
  ℕ, suc, ℤ, pos, ◌≡◌, refl, is_neg, true, false, List, [], ◌∷◌, ◌++◌, none, some, arith, length,
  eq_ℤ→eq,
}
use fiberexec.Runtime.Abi.{has_more}
use fiberexec.Runtime.Uring.{Kernel, Ring, get_sqe, edit}
use fiberexec.Runtime.Thread.{Thread, ok}
use fiberexec.FiberOps.{StopToken}
use fiberexec.FiberOps.Submission.{Serves, sent_once}
use fiberexec.MultishotAcceptor.{
  Acceptor, rearm, complete, next_start, returned, destroy, finished, next_resume,
}
use fiberexec.MultishotAcceptor.System.{
  System, Step, completes, calls, resumes, Reach, here, later, IsNew, after_complete, after_call,
  after_resume,
}

module _ {k : Kernel} (serves : Serves k) where
  rearm-sent : (a : Acceptor) (r : Ring) → length (rearm k a r).sent ≡ suc (length r.sent)
  unfolding rearm get_sqe edit
  rearm-sent a r = rw (serves.room r, get_sqe) (sent_once serves _)

  -- While no error ended it the entry is armed.
  abbrev IsLive : System → Type 0
  IsLive s = s.obj.error ≡ pos 0 → s.armed ≡ true

  after_complete-IsLive :
      (res : ℤ) (flags : ℕ) (s : System) → IsLive s → IsLive (after_complete k res flags s)
  unfolding complete
  after_complete-IsLive res flags s v e = ground (arith, rearm-sent s.obj s.ring)

  after_call-IsLive : (st : StopToken) (s : System) → IsLive s → IsLive (after_call st s)
  unfolding next_start
  after_call-IsLive st s v e = ground arith

  Reach-IsLive : {s t : System} → IsNew s → Reach k s t → IsLive t
  Reach-IsLive n here = λ e. n.armed
  Reach-IsLive n (later {t = m} r (completes res flags _)) =
      after_complete-IsLive res flags m (Reach-IsLive n r)
  Reach-IsLive n (later {t = m} r (calls st _)) = after_call-IsLive st m (Reach-IsLive n r)
  Reach-IsLive n (later r (resumes res _ _)) = Reach-IsLive n r

-- A fiber that waits with no answer yet waits on an object without an error.
abbrev Waits : System → Type 0
Waits s = s.waiting ≡ true → s.obj.answer ≡ none → (s.obj.waiter ≡ true) × (s.obj.error ≡ pos 0)

after_complete-Waits :
    (k : Kernel) (res : ℤ) (flags : ℕ) (s : System) → Waits s → Waits (after_complete k res flags s)
unfolding complete
after_complete-Waits k res flags s v w e = ground arith

after_call-Waits : (st : StopToken) (s : System) → Waits (after_call st s)
unfolding next_start
after_call-Waits st s w e = ground (arith, eq_ℤ→eq s.obj.error (pos 0))

Reach-Waits : {k : Kernel} {s t : System} → IsNew s → Reach k s t → Waits t
Reach-Waits n here = λ w e. ground arith
Reach-Waits {k} n (later {t = m} r (completes res flags _)) =
    after_complete-Waits k res flags m (Reach-Waits n r)
Reach-Waits n (later {t = m} r (calls st _)) = after_call-Waits st m
Reach-Waits n (later r (resumes res _ _)) = λ w e. cc

-- With a kernel that always has a vacant entry and takes every submission, a fiber that waits in
-- `next` for its answer always has an armed entry that can bring it.
pub waiting_is_armed :
    {k : Kernel} {s t : System}
    → Serves k
    → IsNew s
    → Reach k s t
    → t.waiting ≡ true
    → t.obj.answer ≡ none
    → t.armed ≡ true
waiting_is_armed serves n r w e = Reach-IsLive serves n r (Reach-Waits n r w e).1

-- A state in which the fiber waits and nothing can happen any more.
pub record IsStuck (k : Kernel) (s : System) : Type 0 where
  pub waits : s.waiting ≡ true
  pub no_step : {t : System} → ¬ Step k s t

-- The fiber waits for an answer of a live object.
pub record IsWaiting (s : System) : Type 0 where
  pub waits : s.waiting ≡ true
  pub engaged : s.obj.waiter ≡ true
  pub unanswered : s.obj.answer ≡ none
  pub no_fds : s.obj.pending_fds ≡ []
  pub no_error : s.obj.error ≡ pos 0

-- The state once such a fiber was answered and no entry is armed any more.
record IsAnswered (res : ℤ) (c : System) : Type 0 where
  waits : c.waiting ≡ true
  answered : c.obj.answer ≡ some res
  disarmed : c.armed ≡ false
  no_fds : c.obj.pending_fds ≡ []
  no_error : c.obj.error ≡ pos 0

unarmed :
    (k : Kernel) (s : System) (res : ℤ) (flags : ℕ)
    → IsWaiting s
    → is_neg res ≡ false
    → has_more flags ≡ false
    → k.room s.ring ≡ false
    → IsAnswered res (after_complete k res flags s)
unfolding complete get_sqe
unarmed k s res flags w good last full = ground arith

record IsDead (s : System) : Type 0 where
  waits : s.waiting ≡ true
  disarmed : s.armed ≡ false
  unanswered : s.obj.answer ≡ none

dead-IsStuck : (k : Kernel) (s : System) → IsDead s → IsStuck k s
dead-IsStuck k s d = record { waits = d.waits; no_step = no_step }
  where
    no_step : {t : System} → ¬ Step k s t
    no_step (completes res flags a) = ground arith
    no_step (calls st w) = ground arith
    no_step (resumes res w e) = ground arith

call_again :
    (res : ℤ) (c : System) → IsAnswered res c → IsDead (after_call none (after_resume res c))
unfolding next_start
call_again res c a = ground arith

-- A full ring loses the entry: if the kernel ends the entry with an accepted descriptor (no MORE flag)
-- while a fiber waits and the ring has no vacant entry, then the fiber is resumed with that descriptor,
-- and the state after its next call of `next`, with no stop requested, is reached, has the fiber
-- waiting, and has no step.
pub full_ring_strands :
    (k : Kernel) (s : System) (res : ℤ) (flags : ℕ)
    → IsWaiting s
    → s.armed ≡ true
    → is_neg res ≡ false
    → has_more flags ≡ false
    → k.room s.ring ≡ false
    → Reach k s (after_resume res (after_complete k res flags s))
      × ((after_resume res (after_complete k res flags s)).handed ≡ s.handed ++ (res ∷ []))
      × Reach k s (after_call none (after_resume res (after_complete k res flags s)))
      × IsStuck k (after_call none (after_resume res (after_complete k res flags s)))
unfolding next_resume
full_ring_strands k s res flags w armed good last full =
    (resumed, ground arith, later resumed (calls none refl), dead-IsStuck k _ (call_again res c a))
  where
    c : System
    c = after_complete k res flags s

    a : IsAnswered res c
    a = unarmed k s res flags w good last full

    resumed : Reach k s (after_resume res c)
    resumed = later (later here (completes res flags armed)) (resumes res a.waits a.answered)

-- After a stop request a call of `next` on a live object with an empty queue ends the stream and
-- marks the object as terminated, though its entry was not cancelled; the destructor then returns at
-- once, submits nothing and does not shut the server down, whatever the kernel would deliver: it takes the entry for terminated.
pub stopped_not_cancelled :
    (a : Acceptor) (fuel : ℕ) (deliver : List ℤ → List (List (ℤ × ℕ))) (k : Kernel) (t : Thread)
    → a.pending_fds ≡ []
    → a.error ≡ pos 0
    → ((next_start (some true) a).0 ≡ returned none)
      × (destroy fuel deliver (next_start (some true) a).1 k t ≡ (ok finished, t))
unfolding next_start destroy
stopped_not_cancelled a fuel deliver k t no_fds no_error = ground arith

-- In a fiber whose operation was stopped the destructor of a live object with an empty queue returns at
-- once: it does not wait for the completion that ends the entry, whatever the kernel would deliver,
-- and the kernel still holds the address of the object.
pub destroy-stopped :
    (a : Acceptor) (fuel : ℕ) (deliver : List ℤ → List (List (ℤ × ℕ))) (k : Kernel) (t : Thread)
    → a.pending_fds ≡ []
    → a.error ≡ pos 0
    → t.fiber_stop ≡ some true
    → destroy (suc fuel) deliver a k t
      ≡ (ok finished, record t { shut_down = t.shut_down ++ (a.server_fd ∷ []) })
unfolding destroy next_start
destroy-stopped a fuel deliver k t no_fds no_error stopped = ground arith
