-- ===== src/MultishotAcceptor/Destruction/Ends.antt =====
-- ~multishot_acceptor() as a whole.
use fiberexec.Base.{
  ℕ, zero, suc, ◌+◌, ◌≤◌, ◌≡◌, refl, sym, ap, ◌∙◌, ℤ, pos, minus, eq_ℤ, eq_ℤ→eq, true, false, not,
  List, [], ◌∷◌, ◌++◌, none, some, length, arith, if◌then◌else◌, Bool-cases, inl, inr,
}
use mathlib.Core.List.{append_assoc, append-nil}
use fiberexec.Runtime.Abi.{einval}
use fiberexec.Runtime.Uring.{Ring, Kernel}
use fiberexec.Runtime.Thread.{Thread, ok, ◌>>◌}
use fiberexec.AsyncIo.{async_close}
use fiberexec.MultishotAcceptor.{
  Acceptor, suspended, finished, deliver, complete, complete_all, next_start, next_empty,
  next_resume, close_all, drain_round, drain, destroy,
}
use fiberexec.FiberOps.Submission.{IsOpen}
use fiberexec.MultishotAcceptor.Closing.{Obeys, closed, async_close_lem}
use fiberexec.MultishotAcceptor.Destruction.{
  Arrivals, completions_of, fds_in, last_batch, batches, all_fds, size_of, rounds, Keeps,
  complete-Keeps, queued, complete_all-queued, complete_all-last, Drains, close_first, drain-queued,
  drain-ended,
}

length-fds_in : (ds : Arrivals) → length (fds_in ds) ≡ size_of ds
length-fds_in [] = ground arith
length-fds_in ((fd, flags) ∷ ds) = let rest = length-fds_in ds in ground arith

-- The fiber waits, and is then answered with a result.
abbrev waiting : Acceptor → Acceptor
waiting a = record a { waiter = true; answer = none }

abbrev answered : ℤ → Acceptor → Acceptor
answered res a = record a { waiter = false; answer = some res }

module _ {k : Kernel} (o : Obeys k) where
  abbrev after : List (ℤ × ℕ) → Acceptor → Thread → Acceptor × Ring
  after b a t = complete_all k b (waiting a) t.ring

  abbrev thread_after : List (ℤ × ℕ) → Acceptor → Thread → Thread
  thread_after b a t = record t { ring = (after b a t).1 }

  drain-waits :
      (n : ℕ) (bs : List (List (ℤ × ℕ))) (a : Acceptor) (t : Thread)
      → IsOpen t
      → a.pending_fds ≡ []
      → a.error ≡ pos 0
      → drain (suc n) bs a k t ≡ drain_round (drain n) bs (suspended, waiting a) k t
  unfolding drain next_start next_empty
  drain-waits n bs a t g e z = rw (e, z, g.going) refl

  drain-answered :
      (n : ℕ) (b : List (ℤ × ℕ)) (bs : List (List (ℤ × ℕ))) (a : Acceptor) (t : Thread) (fd : ℕ)
      → IsOpen t
      → a.pending_fds ≡ []
      → a.error ≡ pos 0
      → (after b a t).0.answer ≡ some (pos fd)
      → drain (suc n) (b ∷ bs) a k t
        ≡ (async_close (pos fd) >> drain n bs (after b a t).0) k (thread_after b a t)
  unfolding drain_round next_resume
  drain-answered n b bs a t fd g e z s = drain-waits n (b ∷ bs) a t g e z ∙ rw s refl

  first_answered :
      (fd flags : ℕ) (a : Acceptor) (r : Ring)
      → (complete k (pos fd) flags (waiting a) r).0 ≡ answered (pos fd) a
  unfolding complete deliver
  first_answered fd flags a r = refl

  after_batch :
      (fd flags : ℕ) (ds : Arrivals) (a : Acceptor) (t : Thread)
      → t.ring.sq ≡ []
      → ((after (completions_of ((fd, flags) ∷ ds)) a t).0
          ≡ queued (answered (pos fd) a) (fds_in ds))
        × Keeps t.ring (after (completions_of ((fd, flags) ∷ ds)) a t).1
  unfolding complete_all
  after_batch fd flags ds a t e =
      let kept = complete-Keeps o.serves fd flags (waiting a) t.ring e in
      let (rest, keeps) =
        complete_all-queued o.serves ds (complete k (pos fd) flags (waiting a) t.ring).0
          (complete k (pos fd) flags (waiting a) t.ring).1
          (ap (λ (b : Acceptor). b.waiter) (first_answered fd flags a t.ring)) kept.no_entries in
      (
        rest ∙ ap (λ (b : Acceptor). queued b (fds_in ds)) (first_answered fd flags a t.ring),
        record { no_entries = keeps.no_entries; same = keeps.same ∙ kept.same },
      )

  after_last :
      (fd flags : ℕ) (ds : Arrivals) (a : Acceptor) (t : Thread)
      → t.ring.sq ≡ []
      → ((after (last_batch ((fd, flags) ∷ ds)) a t).0 ≡ record (answered (pos fd) a) {
        pending_fds = a.pending_fds ++ fds_in ds;
        error = minus einval;
      })
        × Keeps t.ring (after (last_batch ((fd, flags) ∷ ds)) a t).1
  unfolding complete_all
  after_last fd flags ds a t e =
      let kept = complete-Keeps o.serves fd flags (waiting a) t.ring e in
      let (rest, keeps) =
        complete_all-last o.serves ds (complete k (pos fd) flags (waiting a) t.ring).0
          (complete k (pos fd) flags (waiting a) t.ring).1
          (ap (λ (b : Acceptor). b.waiter) (first_answered fd flags a t.ring)) kept.no_entries in
      (
        rest
            ∙ ap
                (λ (b : Acceptor). record b {
                  pending_fds = b.pending_fds ++ fds_in ds;
                  error = minus einval;
                })
                (first_answered fd flags a t.ring),
        record { no_entries = keeps.no_entries; same = keeps.same ∙ kept.same },
      )

  -- The batch answers the fiber: it closes the descriptor and goes on with the rest.
  closes_answer :
      (n : ℕ) (b : List (ℤ × ℕ)) (bs : List (List (ℤ × ℕ))) (a a' : Acceptor) (t : Thread) (fd : ℕ)
      (fds : List ℤ)
      → IsOpen t
      → a.pending_fds ≡ []
      → a.error ≡ pos 0
      → (after b a t).0 ≡ a'
      → Keeps t.ring (after b a t).1
      → a'.answer ≡ some (pos fd)
      → ((t1 : Thread) → IsOpen t1 → Drains o n bs a' t1 fds)
      → Drains o (suc n) (b ∷ bs) a t (pos fd ∷ fds)
  closes_answer n b bs a a' t fd fds g e z now keeps s rest =
      let opened : IsOpen (thread_after b a t) = record {
        on_worker = g.on_worker;
        going = g.going;
        no_entries = keeps.no_entries;
      } in
      let (t', ran, g', more) =
        close_first o (pos fd) fds n bs a' (thread_after b a t) opened rest in
      (
        t',
        drain-answered n b bs a t fd g e z (ap (λ (x : Acceptor). x.answer) now ∙ s)
            ∙ ap (λ (x : Acceptor). (async_close (pos fd) >> drain n bs x) k (thread_after b a t))
                now
            ∙ ran,
        g',
        more ∙ ap (λ (l : List ℤ). l ++ (pos fd ∷ fds)) keeps.same,
      )

  -- A batch with no completions leaves the fiber waiting.
  drain-idle :
      (n : ℕ) (bs : List (List (ℤ × ℕ))) (a : Acceptor) (t : Thread)
      → IsOpen t
      → a.pending_fds ≡ []
      → a.error ≡ pos 0
      → drain (suc n) ([] ∷ bs) a k t ≡ drain n bs (waiting a) k t
  unfolding drain_round complete_all
  drain-idle n bs a t g e z = drain-waits n ([] ∷ bs) a t g e z ∙ refl

  -- With EINVAL the drain is over.
  drain-over :
      (n : ℕ) (a : Acceptor) (t : Thread)
      → IsOpen t
      → a.pending_fds ≡ []
      → a.error ≡ pos 0
      → drain (suc n) (last_batch [] ∷ []) a k t ≡ (ok finished, t)
  unfolding drain_round complete_all complete deliver next_resume
  drain-over n a t g e z = drain-waits n (last_batch [] ∷ []) a t g e z ∙ refl

  drain_lem :
      (n : ℕ) (dss : List Arrivals) (last : Arrivals) (fds : List ℤ) (a : Acceptor) (t : Thread)
      → IsOpen t
      → a.pending_fds ≡ fds
      → a.error ≡ pos 0
      → length fds + rounds dss last ≤ n
      → Drains o n (batches dss last) a t (fds ++ all_fds dss last)
  drain_lem zero [] last fds a t g e z enough = absurd (omega arith)
  drain_lem zero (ds ∷ dss) last fds a t g e z enough = absurd (omega arith)
  drain_lem (suc n) dss last (fd ∷ fds) a t g e z enough =
      let a1 = record a { pending_fds = fds } in
      let (t', ran, g', more) =
        close_first o fd (fds ++ all_fds dss last) n (batches dss last) a1 t g
          (λ t1 g1. drain_lem n dss last fds a1 t1 g1 refl z (omega arith)) in
      (t', drain-queued o n (batches dss last) a fd fds t e ∙ ran, g', more)
  drain_lem (suc n) [] [] [] a t g e z enough =
      (t, drain-over n a t g e z, g, sym (append-nil (closed t.ring)))
  drain_lem (suc n) [] ((fd, flags) ∷ ds) [] a t g e z enough =
      let (now, keeps) = after_last fd flags ds a t g.no_entries in
      closes_answer n (last_batch ((fd, flags) ∷ ds)) [] a _ t fd (fds_in ds) g e z now keeps refl
        (λ t1 g1.
          drain-ended o n [] (fds_in ds) _ t1 g1 (rw e refl) refl (omega (arith, length-fds_in ds)))
  drain_lem (suc n) ([] ∷ dss) last [] a t g e z enough =
      let (t', ran, g', more) = drain_lem n dss last [] (waiting a) t g e z (omega arith) in
      (t', drain-idle n (batches dss last) a t g e z ∙ ran, g', more)
  drain_lem (suc n) (((fd, flags) ∷ ds) ∷ dss) last [] a t g e z enough =
      let (now, keeps) = after_batch fd flags ds a t g.no_entries in
      closes_answer n (completions_of ((fd, flags) ∷ ds)) (batches dss last) a _ t fd
        (fds_in ds ++ all_fds dss last) g e z now keeps refl
        (λ t1 g1.
          drain_lem n dss last (fds_in ds) _ t1 g1 (rw e refl) z (omega (arith, length-fds_in ds)))

  close_all_lem :
      (fds : List ℤ) (t : Thread)
      → IsOpen t
      → (t' : Thread) × (close_all fds k t ≡ (ok tt, t'))
        × IsOpen t'
        × (closed t'.ring ≡ closed t.ring ++ fds)
  unfolding close_all
  close_all_lem [] t g = (t, refl, g, sym (append-nil (closed t.ring)))
  close_all_lem (fd ∷ fds) t g =
      let (t1, ran, g1, one) = async_close_lem o fd t g in
      let (t2, rest, g2, more) = close_all_lem fds t1 g1 in
      (
        t2,
        rw ran rest,
        g2,
        more ∙ ap (λ (l : List ℤ). l ++ fds) one ∙ append_assoc (closed t.ring) (fd ∷ []) fds,
      )

-- The descriptors that the object still has to close: those that it holds, and those that come until
-- the entry ends, unless it has ended already.
abbrev pub left_over : List Arrivals → Arrivals → Acceptor → List ℤ
left_over dss last a =
    a.pending_fds ++ (if not (eq_ℤ a.error (pos 0)) then [] else all_fds dss last)

-- The destructor, in a fiber that nobody stops, on a kernel that serves requests, where, once the
-- server's descriptor is shut down, the completions until the armed entry ends by EINVAL come in any
-- batches, each with any number of descriptors and some of them without the flag that more will come:
-- it returns, enough fuel being one round for each descriptor and each batch and two more; and it has
-- closed, each once and in order, every descriptor that was queued or still came, or only the queued
-- ones where the object had an error already.
pub destroy_closes :
    {k : Kernel} (o : Obeys k) (dss : List Arrivals) (last : Arrivals) (a : Acceptor) (fuel : ℕ)
    (deliver : List ℤ → List (List (ℤ × ℕ))) (t : Thread)
    → IsOpen t
    → (a.error ≡ pos 0 → deliver (t.shut_down ++ (a.server_fd ∷ [])) ≡ batches dss last)
    → length a.pending_fds + rounds dss last ≤ fuel
    → (t' : Thread) × (destroy fuel deliver a k t ≡ (ok finished, t'))
      × IsOpen t'
      × (closed t'.ring ≡ closed t.ring ++ left_over dss last a)
unfolding destroy
destroy_closes {k} o dss last a fuel deliver t g comes enough =
    elim (Bool-cases (eq_ℤ a.error (pos 0))) [
      | inl z ↦
          let live = eq_ℤ→eq a.error (pos 0) z in
          let (t', ran, g', more) =
            drain_lem o fuel dss last a.pending_fds a
              (record t { shut_down = t.shut_down ++ (a.server_fd ∷ []) })
              (record { on_worker = g.on_worker; going = g.going; no_entries = g.no_entries }) refl
              live enough in
          (t', rw (z, comes live, ran) refl, g', rw z more)
      | inr z ↦
          let (t', ran, g', more) = close_all_lem o a.pending_fds t g in
          (t', rw (z, ran) refl, g', rw (z, append-nil a.pending_fds) more)
    ]
