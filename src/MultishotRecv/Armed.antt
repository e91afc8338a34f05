-- ===== src/MultishotRecv/Armed.antt =====
-- Whether the kernel still holds the receive entry: while the fiber waits, after a full ring, and
-- after a stop.
use fiberexec.Base.{
  ℕ, suc, ℤ, pos, ◌≡◌, refl, sym, ◌∙◌, true, false, List, [], ◌∷◌, none, some, arith, length,
  eq_ℤ→eq,
}
use fiberexec.Runtime.Abi.{has_more, buffer_of}
use fiberexec.Runtime.Uring.{Kernel, Ring, get_sqe, edit}
use fiberexec.Runtime.Thread.{Thread, ok}
use fiberexec.FiberOps.{StopToken}
use fiberexec.FiberOps.Submission.{Serves, sent_once}
use fiberexec.MultishotRecv.Buffer.{Item}
use fiberexec.MultishotRecv.{
  Recv, arm, complete, next_start, next_resume, return_buffer, without, returned, destroy, finished,
}
use fiberexec.MultishotRecv.System.{
  System, Step, arrives, ends_with_buffer, ends_without, calls, resumes, releases, Reach, here,
  later, IsNew, after_complete, after_call, after_resume, after_release, without_front, message,
}

-- While no error ended it the entry is armed, and a fiber that was not woken waits for an object
-- without an error.
abbrev IsLive : System → Type 0
IsLive s = s.obj.error ≡ pos 0 → s.armed ≡ true

abbrev Waits : System → Type 0
Waits s = s.waiting ≡ true → s.obj.woken ≡ false → (s.obj.waiter ≡ true) × (s.obj.error ≡ pos 0)

resume-error : (a : Recv) → (next_resume a).1.error ≡ a.error
unfolding next_resume
resume-error a = ground arith

release-error : (id : ℕ) (a : Recv) → (return_buffer id a).error ≡ a.error
unfolding return_buffer
release-error id a = refl

module _ {k : Kernel} (serves : Serves k) where
  arm-sent : (a : Recv) (r : Ring) → length (arm k a r).sent ≡ suc (length r.sent)
  unfolding arm get_sqe edit
  arm-sent a r = rw (serves.room r, get_sqe) (sent_once serves _)

  after_complete-IsLive :
      (res : ℤ) (flags : ℕ) (a : Recv) (new : List Item) (s : System)
      → a.error ≡ s.obj.error
      → IsLive s
      → IsLive (after_complete k res flags a new s)
  unfolding complete return_buffer
  after_complete-IsLive res flags a new s same v e = ground (arith, arm-sent a s.ring)

  after_call-IsLive : (st : StopToken) (s : System) → IsLive s → IsLive (after_call st s)
  unfolding next_start
  after_call-IsLive st s v e = ground arith

  Reach-IsLive : {n : ℕ} {s t : System} → IsNew n s → Reach k s t → IsLive t
  Reach-IsLive n here = λ e. n.armed
  Reach-IsLive n (later {t = m} r (arrives i flags rest _ _)) =
      after_complete-IsLive (pos (suc i)) flags (without_front rest m.obj)
        (message (suc i) flags ∷ []) m refl (Reach-IsLive n r)
  Reach-IsLive n (later {t = m} r (ends_with_buffer res flags rest _ _ _ _)) =
      after_complete-IsLive res flags (without_front rest m.obj) [] m refl (Reach-IsLive n r)
  Reach-IsLive n (later {t = m} r (ends_without res flags _ _ _)) =
      after_complete-IsLive res flags m.obj [] m refl (Reach-IsLive n r)
  Reach-IsLive n (later {t = m} r (calls st _)) = after_call-IsLive st m (Reach-IsLive n r)
  Reach-IsLive n (later {t = m} r (resumes _ _)) =
      λ e. Reach-IsLive n r (sym (resume-error m.obj) ∙ e)
  Reach-IsLive n (later {t = m} r (releases xs id ys _)) =
      λ e. Reach-IsLive n r (sym (release-error id m.obj) ∙ e)

after_complete-Waits :
    (k : Kernel) (res : ℤ) (flags : ℕ) (a : Recv) (new : List Item) (s : System)
    → a.error ≡ s.obj.error
    → a.waiter ≡ s.obj.waiter
    → a.woken ≡ s.obj.woken
    → Waits s
    → Waits (after_complete k res flags a new s)
unfolding complete return_buffer
after_complete-Waits k res flags a new s e w o v on off = ground arith

after_call-Waits : (st : StopToken) (s : System) → Waits (after_call st s)
unfolding next_start
after_call-Waits st s w e = ground (arith, eq_ℤ→eq s.obj.error (pos 0))

release-Waits :
    (xs : List ℕ) (id : ℕ) (ys : List ℕ) (s : System) → Waits s → Waits (after_release xs id ys s)
unfolding return_buffer
release-Waits xs id ys s v = v

Reach-Waits : {k : Kernel} {n : ℕ} {s t : System} → IsNew n s → Reach k s t → Waits t
Reach-Waits n here = λ on off. ground arith
Reach-Waits {k} n (later {t = m} r (arrives i flags rest _ _)) =
    after_complete-Waits k (pos (suc i)) flags (without_front rest m.obj)
      (message (suc i) flags ∷ []) m refl refl refl (Reach-Waits n r)
Reach-Waits {k} n (later {t = m} r (ends_with_buffer res flags rest _ _ _ _)) =
    after_complete-Waits k res flags (without_front rest m.obj) [] m refl refl refl
      (Reach-Waits n r)
Reach-Waits {k} n (later {t = m} r (ends_without res flags _ _ _)) =
    after_complete-Waits k res flags m.obj [] m refl refl refl (Reach-Waits n r)
Reach-Waits n (later {t = m} r (calls st _)) = after_call-Waits st m
Reach-Waits n (later r (resumes _ _)) = λ on off. cc
Reach-Waits n (later {t = m} r (releases xs id ys _)) = release-Waits xs id ys m (Reach-Waits n r)

-- With a kernel that always has a vacant entry and takes every submission, a fiber that waits in
-- `next` and was not woken always has an armed entry that can bring it a message.
pub receiver_waits_armed :
    {k : Kernel} {n : ℕ} {s t : System}
    → Serves k
    → IsNew n s
    → Reach k s t
    → t.waiting ≡ true
    → t.obj.woken ≡ false
    → t.armed ≡ true
receiver_waits_armed serves n r on off = Reach-IsLive serves n r (Reach-Waits n r on off).1

-- The fiber waits for a message of a live object.
pub record IsWaiting (s : System) : Type 0 where
  pub waits : s.waiting ≡ true
  pub engaged : s.obj.waiter ≡ true
  pub no_items : s.obj.pending ≡ []
  pub no_error : s.obj.error ≡ pos 0

-- The fiber waits, was not woken, and no entry is armed.
record IsDead (s : System) : Type 0 where
  waits : s.waiting ≡ true
  asleep : s.obj.woken ≡ false
  disarmed : s.armed ≡ false

-- The state once such a fiber was woken and no entry is armed any more.
record IsWoken (item : Item) (c : System) : Type 0 where
  waits : c.waiting ≡ true
  awake : c.obj.woken ≡ true
  disarmed : c.armed ≡ false
  one_item : c.obj.pending ≡ item ∷ []
  no_error : c.obj.error ≡ pos 0

unarmed :
    (k : Kernel) (s : System) (n flags : ℕ) (rest : List ℕ)
    → IsWaiting s
    → has_more flags ≡ false
    → k.room s.ring ≡ false
    → IsWoken (message (suc n) flags) (
        after_complete k
          (pos (suc n))
          flags
          (without_front rest s.obj)
          (message (suc n) flags ∷ [])
          s)
unfolding complete get_sqe arm
unarmed k s n flags rest w last full = ground arith

call_again : (item : Item) (c : System) → IsWoken item c → IsDead (after_call none (after_resume c))
unfolding next_start next_resume
call_again item c w = ground arith

release-asleep : (id : ℕ) (a : Recv) → (return_buffer id a).woken ≡ a.woken
unfolding return_buffer
release-asleep id a = refl

stays-IsDead : {k : Kernel} {s t : System} → IsDead s → Reach k s t → IsDead t
stays-IsDead d here = d
stays-IsDead d (later r st) = go (stays-IsDead d r) st
  where
    go : {k : Kernel} {s t : System} → IsDead s → Step k s t → IsDead t
    go d (arrives _ _ _ a _) = ground arith
    go d (ends_with_buffer _ _ _ a _ _ _) = ground arith
    go d (ends_without _ _ a _ _) = ground arith
    go d (calls _ w) = ground arith
    go d (resumes _ on) = ground arith
    go {s} d (releases xs id ys _) = record {
      waits = d.waits;
      asleep = release-asleep id s.obj ∙ d.asleep;
      disarmed = d.disarmed;
    }

-- A full ring loses the entry: if the kernel ends the entry with a message (no MORE flag) while a
-- fiber waits and the ring has no vacant entry, then the fiber gets that message, and its next call of
-- `next`, with no stop requested, waits for ever: in every state reached from then on it waits and
-- was not woken.
pub receiver_stranded :
    (k : Kernel) (s : System) (n flags : ℕ) (rest : List ℕ)
    → IsWaiting s
    → s.armed ≡ true
    → s.obj.ring_bufs ≡ buffer_of flags ∷ rest
    → has_more flags ≡ false
    → k.room s.ring ≡ false
    → (t : System) × Reach k s t
      × ((u : System) → Reach k t u → (u.waiting ≡ true) × (u.obj.woken ≡ false))
receiver_stranded k s n flags rest w armed front last full = (
  after_call none (after_resume c),
  later (later (later here (arrives n flags rest armed front)) (resumes a.waits a.awake))
      (calls none refl),
  λ u r. let d = stays-IsDead (call_again (message (suc n) flags) c a) r in (d.waits, d.asleep),
)
  where
    c : System
    c =
        after_complete k (pos (suc n)) flags (without_front rest s.obj) (message (suc n) flags ∷ [])
          s

    a : IsWoken (message (suc n) flags) c
    a = unarmed k s n flags rest w last full

-- After a stop request a call of `next` on a live object with no pending message ends the stream and
-- marks the object as terminated, though its entry was not cancelled; the destructor then submits
-- nothing and waits for nothing, whatever the kernel would deliver, and frees the ring of buffers
-- under the entry.
pub stopped_receiver_not_cancelled :
    (a : Recv) (fuel : ℕ) (deliver : Ring → List (List (ℤ × ℕ))) (k : Kernel) (t : Thread)
    → a.pending ≡ []
    → a.error ≡ pos 0
    → a.buf_ring ≡ true
    → t.has_ring ≡ true
    → ((next_start (some true) a).0 ≡ returned none)
      × (destroy fuel deliver (next_start (some true) a).1 k t ≡ (
        ok (
          finished,
          record (next_start (some true) a).1 { buf_ring = false; ring_bufs = []; pending = [] },
        ),
        record t { buf_groups = without a.bgid t.buf_groups },
      ))
unfolding next_start destroy
stopped_receiver_not_cancelled a fuel deliver k t no_items no_error ring thread = ground arith
