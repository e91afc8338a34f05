-- ===== src/Scheduler/Cancels.antt =====
-- Requested cancellations reach the kernel when the thread handles its notify eventfd.
use mathlib.Core.List.{append_assoc, append-nil}
use fiberexec.Base.{
  ℕ, ℤ, ◌≡◌, refl, sym, ap, ◌∙◌, true, false, List, [], ◌∷◌, ◌++◌, map, Option, none, some, length,
  arith, modify-append, Bool-cases, inl, inr,
}
use fiberexec.Runtime.Uring.{Ring, Kernel, Sqe, Op, prep, set_data, get_sqe, edit}
use fiberexec.FiberOps.{k_cancel_tag, k_notify_tag}
use fiberexec.FiberOps.Submission.{Serves, submit_ok}
use fiberexec.Scheduler.{
  Pool, Scheduler, Cqe, cancel_entry, flush, flush_cancel_queue, arm_notify, handle_cqe,
}

abbrev pub cancel_of : ℕ → Sqe
cancel_of target = record (prep (Op.cancel target 0)) { user_data = k_cancel_tag }

abbrev pub with_cancels : List ℕ → Ring → Ring
with_cancels targets r = record r { sq = r.sq ++ map cancel_of targets }

got_entry : (k : Kernel) (r : Ring) → k.room r ≡ true → (get_sqe k r).0 ≡ some (length r.sq)
unfolding get_sqe
got_entry k r room = rw (room, get_sqe) refl

written :
    (k : Kernel) (target : ℕ) (r : Ring)
    → k.room r ≡ true
    → edit (length r.sq) (cancel_entry target) (get_sqe k r).1 ≡ with_cancels (target ∷ []) r
unfolding get_sqe edit cancel_entry
written k target r room =
    rw (room, get_sqe)
      (ap (λ (l : List Sqe). record r { sq = l })
        (modify-append r.sq (prep Op.nop) (cancel_entry target)))

-- One entry more.
taken :
    (k : Kernel) (target : ℕ) (targets : List ℕ) (r : Ring)
    → k.room r ≡ true
    → flush k (target ∷ targets) r ≡ flush k targets (with_cancels (target ∷ []) r)
unfolding flush
taken k target targets r room =
    rw (flush, got_entry k r room) (ap (flush k targets) (written k target r room))

with_more :
    (target : ℕ) (targets : List ℕ) (r : Ring)
    → with_cancels targets (with_cancels (target ∷ []) r) ≡ with_cancels (target ∷ targets) r
with_more target targets r =
    ap (λ (l : List Sqe). record r { sq = l })
      (append_assoc r.sq (cancel_of target ∷ []) (map cancel_of targets))

none_got : (k : Kernel) (r : Ring) → k.room r ≡ false → get_sqe k r ≡ (none, r)
unfolding get_sqe
none_got k r full = rw (full, get_sqe) refl

-- Whenever the ring fills up: an initial part of the queue was taken, in order, and the rest is left
-- for the next time; no request is lost or doubled.
pub flush-keeps :
    (k : Kernel) (targets : List ℕ) (r : Ring)
    → (taken : List ℕ) × (taken ++ (flush k targets r).0 ≡ targets)
      × ((flush k targets r).1 ≡ with_cancels taken r)
unfolding flush
flush-keeps k [] r = ([], refl, ap (λ (l : List Sqe). record r { sq = l }) (sym (append-nil r.sq)))
flush-keeps k (target ∷ targets) r = elim (Bool-cases (k.room r)) [
  | inl room ↦
      let (rest, e, f) = flush-keeps k targets (with_cancels (target ∷ []) r) in
      rw (taken k target targets r room)
        (target ∷ rest, ap (◌∷◌ target) e, f ∙ with_more target rest r)
  | inr full ↦
      rw (flush, none_got k r full)
        (
          [],
          refl,
          ap (λ (q : Option ℕ × Ring). q.1) (none_got k r full)
              ∙ ap (λ (l : List Sqe). record r { sq = l }) (sym (append-nil r.sq)),
        )
]

flush-all :
    (k : Kernel) (targets : List ℕ) (r : Ring)
    → Serves k
    → flush k targets r ≡ ([], with_cancels targets r)
unfolding flush
flush-all k [] r serves = ap (λ (l : List Sqe). ([], record r { sq = l })) (sym (append-nil r.sq))
flush-all k (target ∷ targets) r serves =
    taken k target targets r (serves.room r)
    ∙ flush-all k targets (with_cancels (target ∷ []) r) serves
    ∙ ap (λ (r' : Ring). ([], r')) (with_more target targets r)

abbrev pub read_notify : Scheduler → Sqe
read_notify s = record (prep (Op.read s.notify_fd s.notify_val 8 0)) { user_data = k_notify_tag }

pub arm_notify_lem :
    (k : Kernel) (s : Scheduler)
    → Serves k
    → arm_notify k s
      ≡ some (record s {
        ring = record { sq = []; sent = s.ring.sent ++ ((s.ring.sq ++ (read_notify s ∷ [])) ∷ []) };
      })
unfolding arm_notify get_sqe edit
arm_notify_lem k s serves =
    rw
      (
        serves.room s.ring,
        get_sqe,
        modify-append s.ring.sq (prep Op.nop) (λ e. prep (Op.read s.notify_fd s.notify_val 8 0)),
        modify-append s.ring.sq (prep (Op.read s.notify_fd s.notify_val 8 0))
            (set_data k_notify_tag),
        submit_ok k (record s.ring { sq = s.ring.sq ++ (read_notify s ∷ []) }) (serves.takes _),
      )
      refl

flush_cancel_queue-all :
    (k : Kernel) (s : Scheduler)
    → Serves k
    → flush_cancel_queue k s
      ≡ record s { cancel_queue = []; ring = with_cancels s.cancel_queue s.ring }
unfolding flush_cancel_queue
flush_cancel_queue-all k s serves = rw (flush-all k s.cancel_queue s.ring serves) refl

-- With a kernel that has a vacant entry and takes every submission, a thread with no entry left over
-- that handles a completion of its notify eventfd submits one batch: a cancellation for each
-- request in the queue, in the order of the requests, and the next read of that eventfd; and the
-- queue is empty.
pub notify_flushes :
    (h : ℕ → ℤ → ℕ → Ring → Ring) (k : Kernel) (c : Cqe) (p : Pool) (s : Scheduler)
    → Serves k
    → c.tag ≡ k_notify_tag
    → s.ring.sq ≡ []
    → (s' : Scheduler) × (handle_cqe h k c p s ≡ some (p, s'))
      × (s'.cancel_queue ≡ [])
      × (s'.ring.sq ≡ [])
      × (s'.ring.sent
          ≡ s.ring.sent ++ ((map cancel_of s.cancel_queue ++ (read_notify s ∷ [])) ∷ []))
unfolding handle_cqe
notify_flushes h k c p s serves tag empty = (
  record s1 {
    ring = record { sq = []; sent = s1.ring.sent ++ ((s1.ring.sq ++ (read_notify s ∷ [])) ∷ []) };
  },
  at_notify
      ∙ ap (λ (s' : Scheduler). rest (arm_notify k s')) (flush_cancel_queue-all k s serves)
      ∙ ap rest (arm_notify_lem k s1 serves),
  refl,
  refl,
  ap
      (λ (l : List Sqe).
        s.ring.sent ++ (((l ++ map cancel_of s.cancel_queue) ++ (read_notify s ∷ [])) ∷ []))
      empty,
)
  where
    s1 : Scheduler
    s1 = record s { cancel_queue = []; ring = with_cancels s.cancel_queue s.ring }

    rest : Option Scheduler → Option (Pool × Scheduler)
    rest none = none
    rest (some s') = some (p, s')

    at_notify : handle_cqe h k c p s ≡ rest (arm_notify k (flush_cancel_queue k s))
    at_notify = ground arith
