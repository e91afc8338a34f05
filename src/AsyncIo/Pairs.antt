-- ===== src/AsyncIo/Pairs.antt =====
-- The two linked calls, async_send_recv and async_write_fsync.
use fiberexec.Base.{
  suc, ◌*◌, ℤ, is_neg, neg, ◌≡◌, refl, ap, ◌∙◌, true, false, Bool, List, [], ◌∷◌, arith, String,
  if◌then◌else◌,
}
use fiberexec.Runtime.Uring.{Kernel, Op, Sqe, Span, prep, get_sqe as ring_get_sqe, edit}
use fiberexec.Runtime.Thread.{
  Thread, Outcome, ok, err, M, ◌>>=◌, ◌>>◌, pure, when, throw, system_error, continue, get_sqe,
  write_sqe,
}
use fiberexec.FiberOps.{begin_async_op, submit_linked_and_wait, set_fixed_file}
use fiberexec.FiberOps.Submission.{
  IsReady, begin_async_op-ready, handler_of, clean, of_clean, to_clean, holding, sent_after, entry,
}
use fiberexec.FiberOps.Linked.{pointers, submit_linked_and_wait_lem}
use fiberexec.AsyncIo.{FdRef, async_send_recv, async_write_fsync, to_unsigned, front, back}

-- The two entries as the kernel gets them: the first linked to the second, each with its own handler.
abbrev pub pair : Op → Op → Bool → Thread → List Sqe
pair p0 p1 fixed t =
    record (entry p0 fixed (handler_of t)) { io_link = true }
    ∷ entry p1 fixed (8 * suc (suc t.frames))
    ∷ []

abbrev prepared : Thread → Op → Op → Bool → Thread
prepared t p0 p1 fixed = record t {
  ring = record { sq = entry p0 fixed 0 ∷ entry p1 fixed 0 ∷ []; sent = t.ring.sent };
}

abbrev submit_pair : {A : Type 0} → Op → Op → Bool → (List ℤ → M A) → M A
submit_pair p0 p1 fixed f = do
  sqe0 ← get_sqe
  write_sqe sqe0 (λ e. prep p0)
  when fixed (write_sqe sqe0 set_fixed_file)
  sqe1 ← get_sqe
  write_sqe sqe1 (λ e. prep p1)
  when fixed (write_sqe sqe1 set_fixed_file)
  res ← submit_linked_and_wait (sqe0 ∷ sqe1 ∷ []) 2
  f res

module _ (k : Kernel) (t : Thread) (p0 p1 : Op) (fixed : Bool)
    (room0 : k.room (clean t).ring ≡ true)
    (room1 : k.room (holding t (entry p0 fixed 0)).ring ≡ true) where
  submit_pair-continue :
      {A : Type 0} (f : List ℤ → M A)
      → submit_pair p0 p1 fixed f k (clean t)
        ≡ continue k f (submit_linked_and_wait (pointers 0 2) 2 k (prepared t p0 p1 fixed))
  unfolding ring_get_sqe edit
  submit_pair-continue f =
      elim fixed
          as (λ b.
            k.room (holding t (entry p0 b 0)).ring ≡ true
            → submit_pair p0 p1 b f k (clean t)
              ≡ continue k f (submit_linked_and_wait (pointers 0 2) 2 k (prepared t p0 p1 b))) [
                | true ↦ λ room. rw (room0, ring_get_sqe, room, ring_get_sqe)
                | false ↦ λ room. rw (room0, ring_get_sqe, room, ring_get_sqe)
              ]
        room1

  -- A linked call that is let through: its batch and its two results.
  pair_runs :
      {A : Type 0} (name : String) (f : List ℤ → M A)
      → IsReady t
      → is_neg (k.submit_ret (record { sq = pair p0 p1 fixed t; sent = t.ring.sent })) ≡ false
      → (t' : Thread) × ((begin_async_op name >> submit_pair p0 p1 fixed f) k (clean t)
          ≡ f
              (k.result (sent_after t.ring (pair p0 p1 fixed t)) (handler_of t)
                ∷ k.result (sent_after t.ring (pair p0 p1 fixed t)) (8 * suc (suc t.frames))
                ∷ [])
              k
              t')
        × (t'.ring ≡ sent_after t.ring (pair p0 p1 fixed t))
  pair_runs name f r ret = (
    (submit_linked_and_wait (pointers 0 2) 2 k (prepared t p0 p1 fixed)).1,
    rw
        (begin_async_op-ready name k (clean t)
          (record { on_worker = r.on_worker; running = r.running }))
        (submit_pair-continue f
          ∙ ap
              (λ o.
                continue k f
                  (o, (submit_linked_and_wait (pointers 0 2) 2 k (prepared t p0 p1 fixed)).1))
              outcome.0),
    outcome.1,
  )
    where
      outcome :
          ((submit_linked_and_wait (pointers 0 2) 2 k (prepared t p0 p1 fixed)).0
            ≡ ok (
                k.result (sent_after t.ring (pair p0 p1 fixed t)) (handler_of t)
                ∷ k.result (sent_after t.ring (pair p0 p1 fixed t)) (8 * suc (suc t.frames))
                ∷ []))
          × ((submit_linked_and_wait (pointers 0 2) 2 k (prepared t p0 p1 fixed)).1.ring
              ≡ sent_after t.ring (pair p0 p1 fixed t))
      outcome =
          submit_linked_and_wait_lem (entry p0 fixed 0 ∷ entry p1 fixed 0 ∷ []) k
            (prepared t p0 p1 fixed) (omega arith) (omega arith) refl ret

-- The first failure of the two is thrown under its own name.
abbrev pub pair_answer : {A : Type 0} → String → String → ℤ → ℤ → A → Outcome A
pair_answer first second r0 r1 value =
    if is_neg r0
    then err (system_error (neg r0) first)
    else if is_neg r1
    then err (system_error (neg r1) second)
    else ok value

pair_answer_lem :
    {A : Type 0} (first second : String) (r0 r1 : ℤ) (value : A) (k : Kernel) (t : Thread)
    → (((when (is_neg r0) (throw (system_error (neg r0) first))
            >> (when (is_neg r1) (throw (system_error (neg r1) second)) >> pure value))
          k t).0
        ≡ pair_answer first second r0 r1 value)
      × (((when (is_neg r0) (throw (system_error (neg r0) first))
              >> (when (is_neg r1) (throw (system_error (neg r1) second)) >> pure value))
            k t).1
          ≡ t)
pair_answer_lem first second r0 r1 value k t = ground arith

abbrev pub send_op : FdRef → Span → ℤ → Op
send_op fd buf flags = Op.send fd.index buf.ptr buf.size flags

abbrev pub recv_op : FdRef → Span → ℤ → Op
recv_op fd buf flags = Op.recv fd.index buf.ptr buf.size flags

abbrev pub write_op : FdRef → Span → Op
write_op fd buf = Op.write fd.index buf.ptr (to_unsigned buf.size) 0

abbrev pub fsync_op : FdRef → Op
fsync_op fd = Op.fsync fd.index 0

-- The results of the two handlers after the batch.
abbrev pub first_result : Kernel → Thread → List Sqe → ℤ
first_result k t batch = k.result (sent_after t.ring batch) (handler_of t)

abbrev pub second_result : Kernel → Thread → List Sqe → ℤ
second_result k t batch = k.result (sent_after t.ring batch) (8 * suc (suc t.frames))

abbrev async_send_recv_tail : List ℤ → M (ℤ × ℤ)
async_send_recv_tail res = do
  when (is_neg (front res)) (throw (system_error (neg (front res)) "async_send_recv (send)"))
  when (is_neg (back res)) (throw (system_error (neg (back res)) "async_send_recv (recv)"))
  pure (front res, back res)

abbrev async_write_fsync_tail : List ℤ → M ℤ
async_write_fsync_tail res = do
  when (is_neg (front res)) (throw (system_error (neg (front res)) "async_write_fsync (write)"))
  when (is_neg (back res)) (throw (system_error (neg (back res)) "async_write_fsync (fsync)"))
  pure (front res)

-- async_send_recv on a worker with no stop requested and no entry left in the queue, where the kernel
-- has two vacant entries and takes the submission: one batch of a send that is linked to a receive,
-- each with a handler of its own; a failed send is thrown first, then a failed receive, and otherwise
-- the two results are returned in that order.
pub async_send_recv_lem :
    (fd : FdRef) (out into : Span) (sf rf : ℤ) (k : Kernel) (t : Thread)
    → IsReady t
    → t.ring.sq ≡ []
    → k.room t.ring ≡ true
    → k.room (holding t (entry (send_op fd out sf) fd.fixed 0)).ring ≡ true
    → is_neg (
        k.submit_ret (record {
          sq = pair (send_op fd out sf) (recv_op fd into rf) fd.fixed t;
          sent = t.ring.sent;
        }))
      ≡ false
    → let batch = pair (send_op fd out sf) (recv_op fd into rf) fd.fixed t in
      let r0 = first_result k t batch in
      let r1 = second_result k t batch in
      ((async_send_recv fd out into sf rf k t).0
        ≡ pair_answer "async_send_recv (send)" "async_send_recv (recv)" r0 r1 (r0, r1))
      × ((async_send_recv fd out into sf rf k t).1.ring ≡ sent_after t.ring batch)
unfolding async_send_recv
async_send_recv_lem fd out into sf rf k t r empty room0 room1 ret =
    of_clean
      (λ t'.
        let batch = pair (send_op fd out sf) (recv_op fd into rf) fd.fixed t in
        let r0 = first_result k t batch in
        let r1 = second_result k t batch in
        ((async_send_recv fd out into sf rf k t').0
          ≡ pair_answer "async_send_recv (send)" "async_send_recv (recv)" r0 r1 (r0, r1))
        × ((async_send_recv fd out into sf rf k t').1.ring ≡ sent_after t.ring batch))
      t empty
      (let run =
          pair_runs k t (send_op fd out sf) (recv_op fd into rf) fd.fixed
            (to_clean (λ t'. k.room t'.ring ≡ true) t empty room0) room1 "async_send_recv"
            async_send_recv_tail r ret in
        let r0 = first_result k t (pair (send_op fd out sf) (recv_op fd into rf) fd.fixed t) in
        let r1 = second_result k t (pair (send_op fd out sf) (recv_op fd into rf) fd.fixed t) in
        let done =
          pair_answer_lem {A = ℤ × ℤ} "async_send_recv (send)" "async_send_recv (recv)" r0 r1
            (r0, r1) k run.0 in
        rw run.1 (done.0, ap (λ (x : Thread). x.ring) done.1 ∙ run.2))

-- async_write_fsync on a worker with no stop requested and no entry left in the queue, where the kernel
-- has two vacant entries and takes the submission: one batch of a write that is linked to an fsync,
-- each with a handler of its own; a failed write is thrown first, then a failed fsync, and otherwise
-- the write's result is returned.
pub async_write_fsync_lem :
    (fd : FdRef) (buf : Span) (k : Kernel) (t : Thread)
    → IsReady t
    → t.ring.sq ≡ []
    → k.room t.ring ≡ true
    → k.room (holding t (entry (write_op fd buf) fd.fixed 0)).ring ≡ true
    → is_neg (
        k.submit_ret
          (record { sq = pair (write_op fd buf) (fsync_op fd) fd.fixed t; sent = t.ring.sent }))
      ≡ false
    → let batch = pair (write_op fd buf) (fsync_op fd) fd.fixed t in
      let r0 = first_result k t batch in
      let r1 = second_result k t batch in
      ((async_write_fsync fd buf k t).0
        ≡ pair_answer "async_write_fsync (write)" "async_write_fsync (fsync)" r0 r1 r0)
      × ((async_write_fsync fd buf k t).1.ring ≡ sent_after t.ring batch)
unfolding async_write_fsync
async_write_fsync_lem fd buf k t r empty room0 room1 ret =
    of_clean
      (λ t'.
        let batch = pair (write_op fd buf) (fsync_op fd) fd.fixed t in
        let r0 = first_result k t batch in
        let r1 = second_result k t batch in
        ((async_write_fsync fd buf k t').0
          ≡ pair_answer "async_write_fsync (write)" "async_write_fsync (fsync)" r0 r1 r0)
        × ((async_write_fsync fd buf k t').1.ring ≡ sent_after t.ring batch))
      t empty
      (let run =
          pair_runs k t (write_op fd buf) (fsync_op fd) fd.fixed
            (to_clean (λ t'. k.room t'.ring ≡ true) t empty room0) room1 "async_write_fsync"
            async_write_fsync_tail r ret in
        let r0 = first_result k t (pair (write_op fd buf) (fsync_op fd) fd.fixed t) in
        let r1 = second_result k t (pair (write_op fd buf) (fsync_op fd) fd.fixed t) in
        let done =
          pair_answer_lem "async_write_fsync (write)" "async_write_fsync (fsync)" r0 r1 r0 k
            run.0 in
        rw run.1 (done.0, ap (λ (x : Thread). x.ring) done.1 ∙ run.2))
