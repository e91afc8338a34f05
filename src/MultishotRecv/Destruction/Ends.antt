-- ===== src/MultishotRecv/Destruction/Ends.antt =====
-- ~multishot_recv() as a whole.
use fiberexec.Base.{
  ℕ, zero, suc, ◌+◌, ◌≤◌, ◌<◌, ◌≡◌, refl, ap, ◌∙◌, ℤ, pos, is_positive, eq_ℤ, eq_ℤ→eq, true, false,
  List, [], ◌∷◌, ◌++◌, length, arith, if◌then◌else◌, Bool-cases, inl, inr,
}
use fiberexec.Base.Range.{count, count-append}
use fiberexec.Runtime.Abi.{buffer_of}
use fiberexec.Runtime.Uring.{Ring, Kernel}
use fiberexec.Runtime.Thread.{Thread, ok}
use fiberexec.FiberOps.{stop_requested}
use fiberexec.FiberOps.Submission.{IsOpen, Serves}
use fiberexec.MultishotRecv.Buffer.{Item}
use fiberexec.MultishotRecv.{
  Recv, finished, store, wake, complete, complete_all, return_buffer, return_all, drain, free_ring,
  destroy,
}
use fiberexec.MultishotRecv.System.{ids, message}
use fiberexec.MultishotRecv.Destruction.{
  Arrivals, messages_of, items_of, queued, last_batch, complete_all-last, unused, store-waiter,
  store-woken, store-bufs, store-error, store-pending,
}
use fiberexec.MultishotRecv.Destruction.Rounds.{
  size_of, length-items_of, rounds, all_items, waiting, woken_with, drain-queued, drain-over,
  drain-woken, drain-stops, drain-idle, woken-first, first_message, return_all-pending,
  return_all-error, count-return_all, cancelled, submit_cancel_lem,
}

module _ (k : Kernel) where
  module _ (res : ℤ) (last_flags : ℕ) (ends_it : is_positive res ≡ false) where
    abbrev ended : Recv → Recv
    ended a = store res last_flags a

    abbrev woken_at_end : Recv → Recv
    woken_at_end a = record (ended (waiting a)) { waiter = false; woken = true }

    only_last :
        (a : Recv) (r : Ring)
        → (complete_all k (last_batch k res last_flags ends_it []) (waiting a) r).0 ≡ woken_at_end a
    unfolding complete_all complete wake
    only_last a r = rw (store-waiter res last_flags (waiting a)) refl

    first_then_last :
        (n flags : ℕ) (ds : Arrivals) (a : Recv) (r : Ring)
        → a.pending ≡ []
        → (complete_all k (last_batch k res last_flags ends_it ((n, flags) ∷ ds)) (waiting a) r).0
          ≡ ended (queued (woken_with (message (suc n) flags) a) (items_of ds))
    unfolding complete_all complete store wake
    first_then_last n flags ds a r e =
        complete_all-last k res last_flags ends_it ds
          (complete k (pos (suc n)) flags (waiting a) r).0
          (complete k (pos (suc n)) flags (waiting a) r).1 refl
        ∙ ap (λ (b : Recv). ended (queued b (items_of ds))) (woken-first k n flags a r e)

    -- The drain ends, with the entry, and gives back the buffers of some messages.
    abbrev Drains : ℕ → List (List (ℤ × ℕ)) → Recv → Thread → List Item → List ℕ → Type 0
    Drains n bs a t items more =
        (a' : Recv) × (t' : Thread) × (drain n bs a k t ≡ (ok (finished, a'), t'))
        × (a'.pending ≡ [])
        × (eq_ℤ a'.error (pos 0) ≡ false)
        × ((id : ℕ)
            → count id a'.ring_bufs ≡ count id a.ring_bufs + count id (ids items) + count id more)

    -- Once the entry has ended, the queue is given back.
    drain-ended :
        (n : ℕ) (bs : List (List (ℤ × ℕ))) (items : List Item) (a : Recv) (t : Thread)
        → a.pending ≡ items
        → eq_ℤ a.error (pos 0) ≡ false
        → length items < n
        → Drains n bs a t items []
    unfolding return_buffer
    drain-ended zero bs items a t e z enough = absurd (omega arith)
    drain-ended (suc n) bs [] a t e z enough =
        (a, t, drain-over k n bs a t e z, e, z, λ id. omega arith)
    drain-ended (suc n) bs (item ∷ items) a t e z enough =
        let (a', t', ran, none_left, ended', counts) =
          drain-ended n bs items (return_buffer item.buf_id (record a { pending = items })) t refl z
            (omega arith) in
        (
          a',
          t',
          drain-queued k n bs a item items t e ∙ ran,
          none_left,
          ended',
          λ id. omega (arith, counts id, count-append id a.ring_bufs (item.buf_id ∷ [])),
        )

    abbrev pub batches : List Arrivals → Arrivals → List (List (ℤ × ℕ))
    batches [] last = last_batch k res last_flags ends_it last ∷ []
    batches (ds ∷ dss) last = messages_of ds ∷ batches dss last

    -- The wait is over with the end alone.
    drain-last :
        (n : ℕ) (a : Recv) (t : Thread)
        → stop_requested t.fiber_stop ≡ false
        → a.pending ≡ []
        → a.error ≡ pos 0
        → Drains (suc n) (batches [] []) a t [] (unused last_flags)
    drain-last n a t g e z = (
      woken_at_end a,
      record t {
        ring = (complete_all k (last_batch k res last_flags ends_it []) (waiting a) t.ring).1;
      },
      drain-stops k n (last_batch k res last_flags ends_it []) [] a (woken_at_end a) t g e z
          (only_last a t.ring) refl (store-pending res last_flags (waiting a) ends_it ∙ e),
      store-pending res last_flags (waiting a) ends_it ∙ e,
      store-error res last_flags (waiting a) ends_it,
      λ id. omega (arith, store-bufs res last_flags id (waiting a) ends_it),
    )

    -- The wait is over with messages and the end after them.
    drain-last_messages :
        (m n flags : ℕ) (ds : Arrivals) (a : Recv) (t : Thread)
        → stop_requested t.fiber_stop ≡ false
        → a.pending ≡ []
        → a.error ≡ pos 0
        → size_of ds < m
        → Drains
            (suc m)
            (batches [] ((n, flags) ∷ ds))
            a
            t
            (items_of ((n, flags) ∷ ds))
            (unused last_flags)
    unfolding return_buffer
    drain-last_messages m n flags ds a t g e z enough =
        let before = queued (woken_with (message (suc n) flags) a) (items_of ds) in
        let (a', t', ran, none_left, ended', counts) =
          drain-ended m [] (items_of ds)
            (return_buffer (buffer_of flags) (record (ended before) { pending = items_of ds }))
            (record t {
              ring =
                  (complete_all k (last_batch k res last_flags ends_it ((n, flags) ∷ ds))
                    (waiting a) t.ring).1;
            })
            refl (store-error res last_flags before ends_it) (omega (arith, length-items_of ds)) in
        (
          a',
          t',
          drain-woken k m (last_batch k res last_flags ends_it ((n, flags) ∷ ds)) [] a
                (ended before) (message (suc n) flags) (items_of ds) t g e z
                (first_then_last n flags ds a t.ring e) (store-woken res last_flags before)
                (store-pending res last_flags before ends_it)
              ∙ ran,
          none_left,
          ended',
          λ id. omega (
            arith,
            counts id,
            count-append id (ended before).ring_bufs (buffer_of flags ∷ []),
            store-bufs res last_flags id before ends_it,
          ),
        )

    drain-messages :
        (m n flags : ℕ) (ds : Arrivals) (bs : List (List (ℤ × ℕ))) (a : Recv) (t : Thread)
        (items : List Item) (more : List ℕ)
        → stop_requested t.fiber_stop ≡ false
        → a.pending ≡ []
        → a.error ≡ pos 0
        → ((a1 : Recv) (t1 : Thread)
            → stop_requested t1.fiber_stop ≡ false
            → a1.pending ≡ items_of ds
            → a1.error ≡ pos 0
            → Drains m bs a1 t1 (items_of ds ++ items) more)
        → Drains
            (suc m)
            (messages_of ((n, flags) ∷ ds) ∷ bs)
            a
            t
            (items_of ((n, flags) ∷ ds) ++ items)
            more
    unfolding return_buffer
    drain-messages m n flags ds bs a t items more g e z rest =
        let now = first_message k n flags ds a t.ring e in
        let (a', t', ran, none_left, ended', counts) =
          rest
            (return_buffer (buffer_of flags)
              (record (queued (woken_with (message (suc n) flags) a) (items_of ds)) {
                pending = items_of ds;
              }))
            (record t {
              ring = (complete_all k (messages_of ((n, flags) ∷ ds)) (waiting a) t.ring).1;
            })
            g refl z in
        (
          a',
          t',
          drain-woken k m (messages_of ((n, flags) ∷ ds)) bs a
                (queued (woken_with (message (suc n) flags) a) (items_of ds))
                (message (suc n) flags) (items_of ds) t g e z now refl refl
              ∙ ran,
          none_left,
          ended',
          λ id. omega (arith, counts id, count-append id a.ring_bufs (buffer_of flags ∷ [])),
        )

    drain_lem :
        (m : ℕ) (dss : List Arrivals) (last : Arrivals) (items : List Item) (a : Recv) (t : Thread)
        → stop_requested t.fiber_stop ≡ false
        → a.pending ≡ items
        → a.error ≡ pos 0
        → length items + rounds dss last ≤ m
        → Drains m (batches dss last) a t (items ++ all_items dss last) (unused last_flags)
    unfolding return_buffer
    drain_lem zero [] last items a t g e z enough = absurd (omega arith)
    drain_lem zero (ds ∷ dss) last items a t g e z enough = absurd (omega arith)
    drain_lem (suc m) dss last (item ∷ items) a t g e z enough =
        let (a', t', ran, none_left, ended', counts) =
          drain_lem m dss last items (return_buffer item.buf_id (record a { pending = items })) t g
            refl z (omega arith) in
        (
          a',
          t',
          drain-queued k m (batches dss last) a item items t e ∙ ran,
          none_left,
          ended',
          λ id. omega (arith, counts id, count-append id a.ring_bufs (item.buf_id ∷ [])),
        )
    drain_lem (suc m) [] [] [] a t g e z enough = drain-last m a t g e z
    drain_lem (suc m) [] ((n, flags) ∷ ds) [] a t g e z enough =
        drain-last_messages m n flags ds a t g e z (omega arith)
    drain_lem (suc m) ([] ∷ dss) last [] a t g e z enough =
        let (a', t', ran, none_left, ended', counts) =
          drain_lem m dss last [] (waiting a) t g e z (omega arith) in
        (a', t', drain-idle k m (batches dss last) a t g e z ∙ ran, none_left, ended', counts)
    drain_lem (suc m) (((n, flags) ∷ ds) ∷ dss) last [] a t g e z enough =
        drain-messages m n flags ds (batches dss last) a t (all_items dss last) (unused last_flags)
          g e z
          (λ a1 t1 g1 e1 z1.
            drain_lem m dss last (items_of ds) a1 t1 g1 e1 z1 (omega (arith, length-items_of ds)))

-- The buffers that still come back: those of messages that arrive and the one that comes unused with
-- the end, unless the object has an error already.
abbrev pub still_come : List Arrivals → Arrivals → ℕ → Recv → List ℕ
still_come dss last last_flags a =
    if eq_ℤ a.error (pos 0) then ids (all_items dss last) ++ unused last_flags else []

-- The destructor, in a fiber that was not stopped, on a kernel that serves requests, where, once the
-- entry that cancels the armed one was submitted, the completions until the armed entry's end come in
-- any batches, each with any number of messages, and `res` is the result of the end: it returns, enough
-- fuel being one round for each message and each batch and two more; before it frees the ring of
-- buffers no message is left, the object has an error, and each buffer of a pending message, of a
-- message that still came, and one that came unused with the end was given back, once; where the object
-- had an error already, because its entry had ended or a stopped `next` had marked it, only those of
-- pending messages.
pub destroy_returns :
    {k : Kernel} (serves : Serves k) (res : ℤ) (last_flags : ℕ) (ends_it : is_positive res ≡ false)
    (dss : List Arrivals) (last : Arrivals) (a : Recv) (fuel : ℕ)
    (deliver : Ring → List (List (ℤ × ℕ))) (t : Thread)
    → IsOpen t
    → (a.error ≡ pos 0
        → deliver (cancelled t.ring a.self) ≡ batches k res last_flags ends_it dss last)
    → rounds dss last ≤ fuel
    → (a' : Recv) × (t' : Thread) × (destroy fuel deliver a k t ≡ free_ring (finished, a') k t')
      × (a'.pending ≡ [])
      × (eq_ℤ a'.error (pos 0) ≡ false)
      × ((id : ℕ)
          → count id a'.ring_bufs
            ≡ count id a.ring_bufs
              + count id (ids a.pending)
              + count id (still_come dss last last_flags a))
unfolding destroy
destroy_returns {k} serves res last_flags ends_it dss last a fuel deliver t g comes enough =
    elim (Bool-cases (eq_ℤ a.error (pos 0))) [
      | inl z ↦
          let live = eq_ℤ→eq a.error (pos 0) z in
          let (a', t', ran, none_left, ended', counts) =
            drain_lem k res last_flags ends_it fuel dss last [] (return_all a.pending a)
              (record t { ring = cancelled t.ring a.self }) g.going (return_all-pending a.pending a)
              (return_all-error a.pending a ∙ live) (omega arith) in
          (
            a',
            t',
            rw (z, submit_cancel_lem serves a.self t g, comes live, ran) refl,
            none_left,
            ended',
            λ id. rw z (
                omega (
                  arith,
                  counts id,
                  count-return_all id a.pending a,
                  count-append id (ids (all_items dss last)) (unused last_flags),
                )),
          )
      | inr z ↦ (
        return_all a.pending a,
        t,
        rw z refl,
        return_all-pending a.pending a,
        ap (λ (e : ℤ). eq_ℤ e (pos 0)) (return_all-error a.pending a) ∙ z,
        λ id. rw z (omega (arith, count-return_all id a.pending a)),
      )
    ]
