-- ===== src/MultishotAcceptor/Destruction.antt =====
-- ~multishot_acceptor(): the completions that its drain gets, and its closes one by one.
pub mod Ends
use fiberexec.Base.{
  ℕ, zero, suc, ◌+◌, ◌≤◌, ◌<◌, ◌≡◌, refl, sym, ap, ◌∙◌, subst, ℤ, pos, is_neg, minus, eq_ℤ, Bool,
  true, false, not, ◌&&◌, List, [], ◌∷◌, ◌++◌, Option, none, some, map, length, arith, Bool-cases,
  inl, inr, if◌then◌else◌, modify-append,
}
use mathlib.Core.List.{append_assoc, append-nil}
use fiberexec.Runtime.Abi.{einval, has_more}
use fiberexec.Runtime.Uring.{Op, Sqe, Ring, Kernel, prep, set_data, get_sqe, edit, submit}
use fiberexec.Runtime.Thread.{Thread, Outcome, ok, M, ◌>>=◌, ◌>>◌}
use fiberexec.FiberOps.{stop_requested, current_fiber_stop_token}
use fiberexec.FiberOps.Submission.{IsOpen, Serves, submit_ok, sent_after}
use fiberexec.AsyncIo.{async_close}
use fiberexec.MultishotAcceptor.{
  Acceptor, Start, returned, suspended, End, finished, hanging, deliver, rearm, complete,
  complete_all, next_start, next_empty, next_resume, close_all, drain_round, drain, destroy,
}
use fiberexec.MultishotAcceptor.Closing.{
  Obeys, HasClosed, closed, closes_in, closes_in-append, async_close_lem,
}

-- Descriptors that one batch of completions brings, with the flags of each.
abbrev pub Arrivals : Type 0
Arrivals = List (ℕ × ℕ)

abbrev pub completions_of : Arrivals → List (ℤ × ℕ)
completions_of [] = []
completions_of ((fd, flags) ∷ ds) = (pos fd, flags) ∷ completions_of ds

abbrev pub fds_in : Arrivals → List ℤ
fds_in [] = []
fds_in ((fd, flags) ∷ ds) = pos fd ∷ fds_in ds

-- The entry is ended by EINVAL after some descriptors more.
abbrev pub last_batch : Arrivals → List (ℤ × ℕ)
last_batch [] = (minus einval, 0) ∷ []
last_batch ((fd, flags) ∷ ds) = (pos fd, flags) ∷ last_batch ds

abbrev pub batches : List Arrivals → Arrivals → List (List (ℤ × ℕ))
batches [] last = last_batch last ∷ []
batches (ds ∷ dss) last = completions_of ds ∷ batches dss last

abbrev pub all_fds : List Arrivals → Arrivals → List ℤ
all_fds [] last = fds_in last
all_fds (ds ∷ dss) last = fds_in ds ++ all_fds dss last

abbrev pub size_of : Arrivals → ℕ
size_of [] = 0
size_of (d ∷ ds) = suc (size_of ds)

-- Rounds that are enough: one for each descriptor and each batch, and the last.
abbrev pub rounds : List Arrivals → Arrivals → ℕ
rounds [] last = 2 + size_of last
rounds (ds ∷ dss) last = suc (size_of ds + rounds dss last)

abbrev pub empty_queue : Ring → Ring
empty_queue r = record { sq = []; sent = r.sent }

-- Nothing is left over in the ring, and nothing was closed.
pub record Keeps (r r' : Ring) : Type 0 where
  pub no_entries : r'.sq ≡ []
  pub same : closed r' ≡ closed r

-- Descriptors that come while nobody waits are queued.
abbrev pub queued : Acceptor → List ℤ → Acceptor
queued a fds = record a { pending_fds = a.pending_fds ++ fds }

module _ {k : Kernel} (serves : Serves k) where
  abbrev accept_entry : Acceptor → Sqe
  accept_entry a = record (prep (Op.multishot_accept a.server_fd a.addr a.addrlen 0)) {
    user_data = a.self;
  }

  rearm-eq :
      (a : Acceptor) (r : Ring) → rearm k a (empty_queue r) ≡ sent_after r (accept_entry a ∷ [])
  unfolding rearm get_sqe edit
  rearm-eq a r =
      rw (serves.room (empty_queue r), get_sqe)
        (ap (λ (x : ℤ × Ring). x.1)
          (submit_ok k (record { sq = accept_entry a ∷ []; sent = r.sent }) (serves.takes _)))

  rearm-Keeps : (a : Acceptor) (r : Ring) → r.sq ≡ [] → Keeps r (rearm k a r)
  rearm-Keeps a r e =
      subst (λ (q : Ring). Keeps r (rearm k a q)) (λ i. record { sq = sym e i; sent = r.sent })
        (subst (Keeps r) (sym (rearm-eq a r)) (record {
          no_entries = refl;
          same = closes_in-append r.sent ((accept_entry a ∷ []) ∷ []) ∙ append-nil (closed r);
        }))

  pub complete-Keeps :
      (fd flags : ℕ) (a : Acceptor) (r : Ring)
      → r.sq ≡ []
      → Keeps r (complete k (pos fd) flags a r).1
  unfolding complete
  complete-Keeps fd flags a r e = elim (Bool-cases (has_more flags)) [
    | inl more ↦ rw more (record { no_entries = e; same = refl })
    | inr last ↦ rw last (rearm-Keeps a r e)
  ]

  complete-queued :
      (fd flags : ℕ) (a : Acceptor) (r : Ring)
      → a.waiter ≡ false
      → (complete k (pos fd) flags a r).0 ≡ queued a (pos fd ∷ [])
  unfolding complete
  complete-queued fd flags a r e = ground arith

  pub complete_all-queued :
      (ds : Arrivals) (a : Acceptor) (r : Ring)
      → a.waiter ≡ false
      → r.sq ≡ []
      → ((complete_all k (completions_of ds) a r).0 ≡ queued a (fds_in ds))
        × Keeps r (complete_all k (completions_of ds) a r).1
  unfolding complete_all
  complete_all-queued [] a r w e = (
    ap (λ (l : List ℤ). record a { pending_fds = l }) (sym (append-nil a.pending_fds)),
    record { no_entries = e; same = refl },
  )
  complete_all-queued ((fd, flags) ∷ ds) a r w e =
      let kept = complete-Keeps fd flags a r e in
      let now = complete-queued fd flags a r w in
      let (rest, keeps) =
        complete_all-queued ds (complete k (pos fd) flags a r).0 (complete k (pos fd) flags a r).1
          (ap (λ (b : Acceptor). b.waiter) now ∙ w) kept.no_entries in
      (
        rest
            ∙ ap (λ (b : Acceptor). queued b (fds_in ds)) now
            ∙ ap (λ (l : List ℤ). record a { pending_fds = l })
                (append_assoc a.pending_fds (pos fd ∷ []) (fds_in ds)),
        record { no_entries = keeps.no_entries; same = keeps.same ∙ kept.same },
      )

  complete-ended :
      (a : Acceptor) (r : Ring)
      → a.waiter ≡ false
      → complete k (minus einval) 0 a r ≡ (record a { error = minus einval }, r)
  unfolding complete
  complete-ended a r w = ground arith

  pub complete_all-last :
      (ds : Arrivals) (a : Acceptor) (r : Ring)
      → a.waiter ≡ false
      → r.sq ≡ []
      → ((complete_all k (last_batch ds) a r).0
          ≡ record a { pending_fds = a.pending_fds ++ fds_in ds; error = minus einval })
        × Keeps r (complete_all k (last_batch ds) a r).1
  unfolding complete_all
  complete_all-last [] a r w e = (
    ap (λ (x : Acceptor × Ring). x.0) (complete-ended a r w)
        ∙ ap (λ (l : List ℤ). record a { pending_fds = l; error = minus einval })
            (sym (append-nil a.pending_fds)),
    subst (Keeps r) (sym (ap (λ (x : Acceptor × Ring). x.1) (complete-ended a r w)))
        (record { no_entries = e; same = refl }),
  )
  complete_all-last ((fd, flags) ∷ ds) a r w e =
      let kept = complete-Keeps fd flags a r e in
      let now = complete-queued fd flags a r w in
      let (rest, keeps) =
        complete_all-last ds (complete k (pos fd) flags a r).0 (complete k (pos fd) flags a r).1
          (ap (λ (b : Acceptor). b.waiter) now ∙ w) kept.no_entries in
      (
        rest
            ∙ ap
                (λ (b : Acceptor). record b {
                  pending_fds = b.pending_fds ++ fds_in ds;
                  error = minus einval;
                })
                now
            ∙ ap (λ (l : List ℤ). record a { pending_fds = l; error = minus einval })
                (append_assoc a.pending_fds (pos fd ∷ []) (fds_in ds)),
        record { no_entries = keeps.no_entries; same = keeps.same ∙ kept.same },
      )

module _ {k : Kernel} (o : Obeys k) where
  -- The drain ends, and has then closed some descriptors more.
  abbrev pub Drains : ℕ → List (List (ℤ × ℕ)) → Acceptor → Thread → List ℤ → Type 0
  Drains n bs a t fds =
      (t' : Thread) × (drain n bs a k t ≡ (ok finished, t'))
      × IsOpen t'
      × (closed t'.ring ≡ closed t.ring ++ fds)

  -- A descriptor that is closed first.
  pub close_first :
      (fd : ℤ) (fds : List ℤ) (n : ℕ) (bs : List (List (ℤ × ℕ))) (a : Acceptor) (t : Thread)
      → IsOpen t
      → ((t1 : Thread) → IsOpen t1 → Drains n bs a t1 fds)
      → (t' : Thread) × ((async_close fd >> drain n bs a) k t ≡ (ok finished, t'))
        × IsOpen t'
        × (closed t'.ring ≡ closed t.ring ++ (fd ∷ fds))
  close_first fd fds n bs a t g rest =
      let (t1, ran, g1, one) = async_close_lem o fd t g in
      let (t2, drained, g2, more) = rest t1 g1 in
      (
        t2,
        rw ran drained,
        g2,
        more ∙ ap (λ (l : List ℤ). l ++ fds) one ∙ append_assoc (closed t.ring) (fd ∷ []) fds,
      )

  -- With a queued descriptor `next` returns it.
  pub drain-queued :
      (n : ℕ) (bs : List (List (ℤ × ℕ))) (a : Acceptor) (fd : ℤ) (fds : List ℤ) (t : Thread)
      → a.pending_fds ≡ fd ∷ fds
      → drain (suc n) bs a k t ≡ (async_close fd >> drain n bs (record a { pending_fds = fds })) k t
  unfolding drain next_start drain_round
  drain-queued n bs a fd fds t e = ground arith

  -- The entry has ended: what is queued is closed.
  pub drain-ended :
      (n : ℕ) (bs : List (List (ℤ × ℕ))) (fds : List ℤ) (a : Acceptor) (t : Thread)
      → IsOpen t
      → a.pending_fds ≡ fds
      → a.error ≡ minus einval
      → length fds < n
      → Drains n bs a t fds
  unfolding drain next_start drain_round
  drain-ended zero bs fds a t g e err enough = absurd (omega arith)
  drain-ended (suc n) bs [] a t g e err enough =
      (t, ground arith, g, sym (append-nil (closed t.ring)))
  drain-ended (suc n) bs (fd ∷ fds) a t g e err enough =
      let (t', ran, g', more) =
        close_first fd fds n bs (record a { pending_fds = fds }) t g
          (λ t1 g1.
            drain-ended n bs fds (record a { pending_fds = fds }) t1 g1 refl err (omega arith)) in
      (t', drain-queued n bs a fd fds t e ∙ ran, g', more)
