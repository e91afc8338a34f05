-- ===== src/MultishotRecv/Destruction/Rounds.antt =====
-- The rounds of the drain, and what goes before it.
use fiberexec.Base.{
  ℕ, suc, ◌+◌, ◌≡◌, refl, ap, ◌∙◌, ℤ, pos, eq_ℤ, true, false, List, [], ◌∷◌, ◌++◌, length, arith,
  Bool-cases, inl, inr,
}
use fiberexec.Base.Range.{count, count-append}
use fiberexec.Runtime.Uring.{Ring, Kernel, get_sqe, edit, Op, prep}
use fiberexec.FiberOps.Submission.{IsOpen, Serves, clean, of_clean, sent_after, submit_ok}
use fiberexec.Runtime.Thread.{Thread, Outcome, ok}
use fiberexec.FiberOps.{k_cancel_tag, stop_requested, submit_cancel}
use fiberexec.MultishotRecv.Buffer.{Item}
use fiberexec.MultishotRecv.{
  Recv, suspended, End, finished, store, wake, complete, complete_all, next_start, next_empty,
  next_resume, return_buffer, return_all, drain_round, drain, ends,
}
use fiberexec.MultishotRecv.System.{ids, message}
use fiberexec.MultishotRecv.Destruction.{
  Arrivals, messages_of, items_of, queued, complete_all-queued,
}

abbrev pub size_of : Arrivals → ℕ
size_of [] = 0
size_of (d ∷ ds) = suc (size_of ds)

pub length-items_of : (ds : Arrivals) → length (items_of ds) ≡ size_of ds
length-items_of [] = refl
length-items_of (d ∷ ds) = ap suc (length-items_of ds)

-- Rounds that are enough: one for each message and each batch, and the last.
abbrev pub rounds : List Arrivals → Arrivals → ℕ
rounds [] last = 2 + size_of last
rounds (ds ∷ dss) last = suc (size_of ds + rounds dss last)

abbrev pub all_items : List Arrivals → Arrivals → List Item
all_items [] last = items_of last
all_items (ds ∷ dss) last = items_of ds ++ all_items dss last

-- The receiver while the fiber waits, and once a message came.
abbrev pub waiting : Recv → Recv
waiting a = record a { waiter = true; woken = false }

abbrev pub woken_with : Item → Recv → Recv
woken_with item a = record a { waiter = false; woken = true; pending = item ∷ [] }

module _ (k : Kernel) where
  pub drain-queued :
      (n : ℕ) (bs : List (List (ℤ × ℕ))) (a : Recv) (item : Item) (items : List Item) (t : Thread)
      → a.pending ≡ item ∷ items
      → drain (suc n) bs a k t
        ≡ drain n bs (return_buffer item.buf_id (record a { pending = items })) k t
  unfolding drain drain_round next_start
  drain-queued n bs a item items t e = rw e refl

  drain-waits :
      (n : ℕ) (bs : List (List (ℤ × ℕ))) (a : Recv) (t : Thread)
      → stop_requested t.fiber_stop ≡ false
      → a.pending ≡ []
      → a.error ≡ pos 0
      → drain (suc n) bs a k t ≡ drain_round (drain n) bs (suspended, waiting a) k t
  unfolding drain next_start next_empty
  drain-waits n bs a t g e z = rw (e, z, g) refl

  pub drain-over :
      (n : ℕ) (bs : List (List (ℤ × ℕ))) (a : Recv) (t : Thread)
      → a.pending ≡ []
      → eq_ℤ a.error (pos 0) ≡ false
      → drain (suc n) bs a k t ≡ (ok (finished, a), t)
  unfolding drain next_start next_empty drain_round
  drain-over n bs a t e z = elim (Bool-cases (ends a.error)) [
    | inl b ↦ rw (e, z, b) refl
    | inr b ↦ rw (e, z, b) refl
  ]

  pub drain-woken :
      (n : ℕ) (b : List (ℤ × ℕ)) (bs : List (List (ℤ × ℕ))) (a a' : Recv) (item : Item)
      (items : List Item) (t : Thread)
      → stop_requested t.fiber_stop ≡ false
      → a.pending ≡ []
      → a.error ≡ pos 0
      → (complete_all k b (waiting a) t.ring).0 ≡ a'
      → a'.woken ≡ true
      → a'.pending ≡ item ∷ items
      → drain (suc n) (b ∷ bs) a k t
        ≡ drain n bs
            (return_buffer item.buf_id (record a' { pending = items }))
            k
            (record t { ring = (complete_all k b (waiting a) t.ring).1 })
  unfolding drain_round next_resume
  drain-woken n b bs a a' item items t g e z now w p =
      drain-waits n (b ∷ bs) a t g e z ∙ rw (now, w, p) refl

  pub drain-stops :
      (n : ℕ) (b : List (ℤ × ℕ)) (bs : List (List (ℤ × ℕ))) (a a' : Recv) (t : Thread)
      → stop_requested t.fiber_stop ≡ false
      → a.pending ≡ []
      → a.error ≡ pos 0
      → (complete_all k b (waiting a) t.ring).0 ≡ a'
      → a'.woken ≡ true
      → a'.pending ≡ []
      → drain (suc n) (b ∷ bs) a k t
        ≡ (ok (finished, a'), record t { ring = (complete_all k b (waiting a) t.ring).1 })
  unfolding drain_round next_resume
  drain-stops n b bs a a' t g e z now w p = elim (Bool-cases (ends a'.error)) [
    | inl q ↦ drain-waits n (b ∷ bs) a t g e z ∙ rw (now, w, p, q) (ap left_with p)
    | inr q ↦ drain-waits n (b ∷ bs) a t g e z ∙ rw (now, w, p, q) (ap left_with p)
  ]
    where
      left_with : List Item → Outcome (End × Recv) × Thread
      left_with l = (
        ok (finished, record a' { pending = l; woken = true }),
        record t { ring = (complete_all k b (waiting a) t.ring).1 },
      )

  pub drain-idle :
      (n : ℕ) (bs : List (List (ℤ × ℕ))) (a : Recv) (t : Thread)
      → stop_requested t.fiber_stop ≡ false
      → a.pending ≡ []
      → a.error ≡ pos 0
      → drain (suc n) ([] ∷ bs) a k t ≡ drain n bs (waiting a) k t
  unfolding drain_round complete_all
  drain-idle n bs a t g e z = drain-waits n ([] ∷ bs) a t g e z ∙ refl

  pub woken-first :
      (n flags : ℕ) (a : Recv) (r : Ring)
      → a.pending ≡ []
      → (complete k (pos (suc n)) flags (waiting a) r).0 ≡ woken_with (message (suc n) flags) a
  unfolding complete store wake
  woken-first n flags a r e = rw e refl

  pub first_message :
      (n flags : ℕ) (ds : Arrivals) (a : Recv) (r : Ring)
      → a.pending ≡ []
      → (complete_all k (messages_of ((n, flags) ∷ ds)) (waiting a) r).0
        ≡ queued (woken_with (message (suc n) flags) a) (items_of ds)
  unfolding complete_all complete store wake
  first_message n flags ds a r e =
      complete_all-queued k ds (complete k (pos (suc n)) flags (waiting a) r).0
        (complete k (pos (suc n)) flags (waiting a) r).1 refl
      ∙ ap (λ (b : Recv). queued b (items_of ds)) (woken-first n flags a r e)

pub return_all-pending : (items : List Item) (a : Recv) → (return_all items a).pending ≡ []
unfolding return_all return_buffer
return_all-pending [] a = refl
return_all-pending (item ∷ items) a = return_all-pending items (return_buffer item.buf_id a)

pub return_all-error : (items : List Item) (a : Recv) → (return_all items a).error ≡ a.error
unfolding return_all return_buffer
return_all-error [] a = refl
return_all-error (item ∷ items) a = return_all-error items (return_buffer item.buf_id a)

pub count-return_all :
    (id : ℕ) (items : List Item) (a : Recv)
    → count id (return_all items a).ring_bufs ≡ count id a.ring_bufs + count id (ids items)
unfolding return_all return_buffer
count-return_all id [] a = omega arith
count-return_all id (item ∷ items) a = omega (
  arith,
  count-return_all id items (return_buffer item.buf_id a),
  count-append id a.ring_bufs (item.buf_id ∷ []),
)

-- The entry that cancels an object's, and the ring once it was submitted.
abbrev pub cancelled : Ring → ℕ → Ring
cancelled r self = sent_after r (record (prep (Op.cancel self 0)) { user_data = k_cancel_tag } ∷ [])

pub submit_cancel_lem :
    {k : Kernel}
    → Serves k
    → (self : ℕ) (t : Thread) → IsOpen t
    → submit_cancel self k t ≡ (ok tt, record t { ring = cancelled t.ring self })
unfolding submit_cancel get_sqe edit
submit_cancel_lem {k} serves self t g =
    of_clean (λ t'. submit_cancel self k t' ≡ (ok tt, record t' { ring = cancelled t'.ring self }))
      t g.no_entries
      (rw (g.on_worker, serves.room (clean t).ring, get_sqe, submit_ok k _ (serves.takes _)) refl)
