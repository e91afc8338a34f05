-- ===== src/Scheduler/Handling.antt =====
-- What a thread does with one completion: what it takes from the pool, and the read that it arms again.
use fiberexec.Base.{
  ℕ, suc, ◌+◌, ◌≤◌, ◌<◌, ℤ, is_neg, ◌≡◌, ◌≢◌, refl, sym, ap, ◌∙◌, true, not, ◌&&◌, List, [], ◌∷◌,
  ◌++◌, none, some, length, if◌then◌else◌, arith,
}
use mathlib.Core.List.{append-nil}
use fiberexec.Runtime.Uring.{Ring, Kernel, Op, prep, set_data, get_sqe, edit, submit}
use fiberexec.FiberOps.Submission.{Serves, sent_once}
use fiberexec.FiberOps.{k_work_tag}
use fiberexec.Scheduler.{Pool, Scheduler, Cqe, take_work, handle_cqe, handle_work, arm_work_efd}
use fiberexec.Scheduler.System.{Worker, Handler, is_token, is_failed, failed_read, added}

-- The tokens that wait in the rings of the threads.
abbrev pub tokens_in : List Cqe → ℕ
tokens_in [] = 0
tokens_in (c ∷ cs) = (if is_token c then 1 else 0) + tokens_in cs

abbrev pub received : List Worker → ℕ
received [] = 0
received (w ∷ ws) = tokens_in w.cqes + received ws

pub tokens_in-append : (cs ds : List Cqe) → tokens_in (cs ++ ds) ≡ tokens_in cs + tokens_in ds
tokens_in-append [] ds = omega arith
tokens_in-append (c ∷ cs) ds = omega (arith, tokens_in-append cs ds)

pub received-append : (xs ys : List Worker) → received (xs ++ ys) ≡ received xs + received ys
received-append [] ys = omega arith
received-append (x ∷ xs) ys = omega (arith, received-append xs ys)

-- The failed reads that wait in the ring of a thread.
abbrev pub failed_in : List Cqe → ℕ
failed_in [] = 0
failed_in (c ∷ cs) = (if is_failed c then 1 else 0) + failed_in cs

pub failed_in-append : (cs ds : List Cqe) → failed_in (cs ++ ds) ≡ failed_in cs + failed_in ds
failed_in-append [] ds = omega arith
failed_in-append (c ∷ cs) ds = omega (arith, failed_in-append cs ds)

added-append : (xs ys : List ℕ) → added xs (xs ++ ys) ≡ ys
added-append [] ys = refl
added-append (x ∷ xs) ys = added-append xs ys

abbrev first : List ℕ → List ℕ
first [] = []
first (x ∷ xs) = x ∷ []

-- The tasks that a thread should launch for a completion.
abbrev pub launches : Cqe → Pool → List ℕ
launches c p = if is_token c && p.running then first p.work_queue else []

-- What handling a completion does: the tasks that it launches are fibers of the thread, were at the
-- front of the queue, and are counted.
pub record Handled (c : Cqe) (p p' : Pool) (s s' : Scheduler) : Type 0 where
  pub made : added s.launched s'.launched ≡ launches c p
  pub takes : launches c p ++ p'.work_queue ≡ p.work_queue
  pub counts : p'.in_flight ≡ p.in_flight + length (launches c p)
  pub tokens : p'.tokens ≡ p.tokens
  pub running : p'.running ≡ p.running

pub handle_cqe_lem :
    (h : Handler) (k : Kernel) (c : Cqe) (p p' : Pool) (s s' : Scheduler)
    → handle_cqe h k c p s ≡ some (p', s')
    → Handled c p p' s s'
unfolding handle_cqe handle_work
handle_cqe_lem h k c p p' s s' e = record {
  made = ap (added s.launched) grown ∙ added-append s.launched (launches c p);
  takes = ground arith;
  counts = ground arith;
  tokens = ground arith;
  running = ground arith;
}
  where
    grown : s'.launched ≡ s.launched ++ launches c p
    grown = ground (arith, append-nil s.launched)

-- The ring with a read of the eventfd in it.
abbrev with_read : Kernel → Pool → Scheduler → Ring
with_read k p s = edit (length s.ring.sq) (set_data k_work_tag) (
    edit (length s.ring.sq) (λ e. prep (Op.read p.eventfd s.work_efd_val 8 0)) (get_sqe k s.ring).1)

arm_work_lem :
    {k : Kernel} (serves : Serves k) (p : Pool) (s : Scheduler)
    → (s' : Scheduler) × (arm_work_efd k p s ≡ some s')
      × (length s'.ring.sent ≡ suc (length s.ring.sent))
unfolding arm_work_efd get_sqe edit
arm_work_lem {k} serves p s = (
  record s { ring = (submit k (with_read k p s)).1 },
  rw (serves.room s.ring, get_sqe) refl,
  with_room,
)
  where
    with_room : length (submit k (with_read k p s)).1.sent ≡ suc (length s.ring.sent)
    with_room = sent_once serves (with_read k p s) ∙ ap suc (ground (arith, serves.room s.ring))

-- The end of `handle_work`, after a task was taken or not.
finish :
    (k : Kernel) (serves : Serves k) (x : Pool × Scheduler) (p' : Pool) (s s' : Scheduler)
    → x.1.ring ≡ s.ring
    → (if x.0.running
        then (elim (arm_work_efd k x.0 x.1) [ none ↦ none | some s'' ↦ some (x.0, s'') ])
        else some x)
      ≡ some (p', s')
    → p'.running ≡ true
    → length s.ring.sent < length s'.ring.sent
finish k serves x p' s s' same e on =
    let (s'', a, l) = arm_work_lem serves x.0 x.1 in ground (arith, a, l)

pub rearmed :
    (h : Handler) (k : Kernel) (serves : Serves k) (c : Cqe) (p p' : Pool) (s s' : Scheduler)
    → handle_cqe h k c p s ≡ some (p', s')
    → c.tag ≡ k_work_tag
    → p'.running ≡ true
    → length s.ring.sent < length s'.ring.sent
unfolding handle_work handle_cqe
rearmed h k serves c p p' s s' e tag on =
    finish k serves taken p' s s' (ground arith) (sym at_work ∙ e) on
  where
    taken : Pool × Scheduler
    taken = if not (is_neg c.res) && p.running then take_work p s else (p, s)

    at_work : handle_cqe h k c p s ≡ handle_work k c.res p s
    at_work = rw (tag, handle_cqe) refl

-- While the pool runs a token that is handled launches one task.
pub launches-count :
    (c : Cqe) (p : Pool)
    → p.running ≡ true
    → tokens_in (c ∷ []) ≤ length p.work_queue
    → length (launches c p) ≡ tokens_in (c ∷ [])
launches-count c p on enough = ground arith

pub no_token : (c : Cqe) → c.tag ≢ k_work_tag → tokens_in (c ∷ []) ≡ 0
no_token c t = ground arith

pub failed-counts :
    (res : ℤ)
    → is_neg res ≡ true
    → (tokens_in (failed_read res ∷ []) ≡ 0) × (failed_in (failed_read res ∷ []) ≡ 1)
failed-counts res n = ground arith
