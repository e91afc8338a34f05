-- ===== src/Scheduler/Wakeups.antt =====
-- No posted task is stranded, tasks are launched once and in order, and the pool counts its fibers.
use fiberexec.Base.{
  ℕ, zero, suc, ◌+◌, ◌≤◌, ◌<◌, ◌==◌, ◌≡◌, refl, sym, ap, ◌∙◌, subst, ◌⊎◌, inl, inr, true, false,
  not, ◌&&◌, ◌||◌, List, [], ◌∷◌, ◌++◌, some, length, All, All-replace, All-mid, All-map,
  length-snoc, length-append, arith,
}
use fiberexec.Scheduler.Handling.{
  tokens_in, received, failed_in, launches, Handled, handle_cqe_lem, tokens_in-append,
  received-append, failed_in-append, rearmed, launches-count, no_token, failed-counts,
}
use mathlib.Core.List.{append_assoc}
use fiberexec.Runtime.Uring.{Kernel}
use fiberexec.FiberOps.Submission.{Serves}
use fiberexec.FiberOps.{k_work_tag}
use fiberexec.Scheduler.{
  Pool, Scheduler, Cqe, enqueue, write_eventfd, stop, fiber_done, handle_cqe, may_exit,
}
use fiberexec.Scheduler.System.{
  rearms, Worker, System, Handler, token, failed_read, added, after_handle, Step, enqueues,
  writes_token, reads, read_fails, arrives, handles, ends, stops, Reach, here, later, IsNew,
}

abbrev IsServed : Worker → Type 0
IsServed w = (w.armed ≡ true) ⊎ (1 ≤ tokens_in w.cqes + failed_in w.cqes)

record Inv (k : Kernel) (s : System) : Type 0 where
  order : s.launched ++ s.pool.work_queue ≡ s.posted
  counted : s.pool.in_flight ≡ s.live
  exact :
      s.pool.running ≡ true
      → length s.pool.work_queue ≡ s.pool.tokens + s.writes + received s.workers
  served : Serves k → s.pool.running ≡ true → All IsServed s.workers

new-Inv : (k : Kernel) {s : System} → IsNew s → Inv k s
new-Inv k {s} n = record {
  order = ground arith;
  counted = ground arith;
  exact = λ on.
      omega
        (arith, n.no_tokens, n.no_writes, ap length n.no_work, none_received s.workers n.set_up);
  served = λ serves on. All-map _ IsServed s.workers (λ w h. inl h.0) n.set_up;
}
  where
    none_received :
        (ws : List Worker)
        → All (λ (w : Worker). (w.armed ≡ true) × (w.cqes ≡ [])) ws
        → received ws ≡ 0
    none_received [] h = refl
    none_received (w ∷ ws) h = omega (arith, ap tokens_in h.0.1, none_received ws h.1)

received-at :
    (s : System) (xs : List Worker) (w : Worker) (ys : List Worker)
    → s.workers ≡ xs ++ w ∷ ys
    → received s.workers ≡ received xs + tokens_in w.cqes + received ys
received-at s xs w ys e = omega (arith, ap received e, received-append xs (w ∷ ys))

handles-Inv :
    (h : Handler) (k : Kernel) (c : Cqe) (cs : List Cqe) (p : Pool) (sched : Scheduler)
    (xs : List Worker) (w : Worker) (ys : List Worker) (s : System)
    → s.workers ≡ xs ++ w ∷ ys
    → w.cqes ≡ c ∷ cs
    → handle_cqe h k c s.pool w.sched ≡ some (p, sched)
    → Inv k s
    → Inv k (after_handle c cs p sched xs w ys s)
handles-Inv h k c cs p sched xs w ys s e f g v = record {
  order =
      append_assoc s.launched (added w.sched.launched sched.launched) p.work_queue
      ∙ ap (λ (l : List ℕ). s.launched ++ (l ++ p.work_queue)) d.made
      ∙ ap (◌++◌ s.launched) d.takes
      ∙ v.order;
  counted = omega (arith, d.counts, v.counted, ap length d.made);
  exact = λ on.
      let was_on = sym d.running ∙ on in
      let before = received-at s xs w ys e in
      let split = ap tokens_in f in
      omega (
        arith,
        v.exact was_on,
        before,
        split,
        launches-count c s.pool was_on (omega (arith, v.exact was_on, before, split)),
        ap length d.takes,
        length-append (launches c s.pool) p.work_queue,
        d.tokens,
        received-append xs (w' ∷ ys),
      );
  served = λ serves on.
      All-replace IsServed IsServed xs w w' ys (λ z h. h)
        (still_served serves on (
          All-mid IsServed xs w ys (subst (All IsServed) e (v.served serves (sym d.running ∙ on)))))
        (subst (All IsServed) e (v.served serves (sym d.running ∙ on)));
}
  where
    d : Handled c s.pool p w.sched sched
    d = handle_cqe_lem h k c s.pool p w.sched sched g

    w' : Worker
    w' = record { sched = sched; armed = w.armed || rearms c w.sched sched; cqes = cs }

    again :
        Serves k
        → c.tag ≡ k_work_tag
        → p.running ≡ true
        → length w.sched.ring.sent < length sched.ring.sent
    again serves tag on = rearmed h k serves c s.pool p w.sched sched g tag on

    still_served : Serves k → p.running ≡ true → IsServed w → IsServed w'
    still_served serves on (inl a) = inl (ground arith)
    still_served serves on (inr t) = ground (arith, ap tokens_in f, ap failed_in f, again serves)

more-IsServed :
    (w : Worker) (c : Cqe) → IsServed w → IsServed (record w { cqes = w.cqes ++ (c ∷ []) })
more-IsServed w c (inl a) = inl a
more-IsServed w c (inr t) =
    inr (omega (arith, tokens_in-append w.cqes (c ∷ []), failed_in-append w.cqes (c ∷ [])))

Step-Inv : {h : Handler} {k : Kernel} {s t : System} → Step h k s t → Inv k s → Inv k t
unfolding enqueue write_eventfd stop fiber_done
Step-Inv {s = s} (enqueues work) v = record {
  order =
      sym (append_assoc s.launched s.pool.work_queue (work ∷ []))
      ∙ ap (λ (l : List ℕ). l ++ (work ∷ [])) v.order;
  counted = v.counted;
  exact = λ on. omega (arith, v.exact on, length-snoc s.pool.work_queue work);
  served = v.served;
}
Step-Inv {s = s} (writes_token n e) v = record {
  order = v.order;
  counted = v.counted;
  exact = λ on. omega (arith, v.exact on);
  served = v.served;
}
Step-Inv {s = s} (reads n xs w ys e f a) v = record {
  order = v.order;
  counted = v.counted;
  exact = λ on. omega (
    arith,
    v.exact on,
    received-at s xs w ys f,
    tokens_in-append w.cqes (token ∷ []),
    received-append xs (record w { armed = false; cqes = w.cqes ++ (token ∷ []) } ∷ ys),
  );
  served = λ serves on.
      All-replace IsServed IsServed xs w (record w { armed = false; cqes = w.cqes ++ (token ∷ []) })
        ys (λ z h. h)
        (inr (
          omega
            (arith, tokens_in-append w.cqes (token ∷ []), failed_in-append w.cqes (token ∷ []))))
        (subst (All IsServed) f (v.served serves on));
}
Step-Inv {s = s} (read_fails res xs w ys n f a) v = record {
  order = v.order;
  counted = v.counted;
  exact = λ on. omega (
    arith,
    v.exact on,
    received-at s xs w ys f,
    tokens_in-append w.cqes (failed_read res ∷ []),
    failed-counts res n,
    received-append xs (record w { armed = false; cqes = w.cqes ++ (failed_read res ∷ []) } ∷ ys),
  );
  served = λ serves on.
      All-replace IsServed IsServed xs w
        (record w { armed = false; cqes = w.cqes ++ (failed_read res ∷ []) }) ys (λ z h. h)
        (inr (
          omega (
            arith,
            tokens_in-append w.cqes (failed_read res ∷ []),
            failed_in-append w.cqes (failed_read res ∷ []),
            failed-counts res n,
          )))
        (subst (All IsServed) f (v.served serves on));
}
Step-Inv {s = s} (arrives c xs w ys e t) v = record {
  order = v.order;
  counted = v.counted;
  exact = λ on. omega (
    arith,
    v.exact on,
    received-at s xs w ys e,
    tokens_in-append w.cqes (c ∷ []),
    no_token c t,
    received-append xs (record w { cqes = w.cqes ++ (c ∷ []) } ∷ ys),
  );
  served = λ serves on.
      All-replace IsServed IsServed xs w (record w { cqes = w.cqes ++ (c ∷ []) }) ys (λ z h. h)
        (more-IsServed w c (All-mid IsServed xs w ys (subst (All IsServed) e (v.served serves on))))
        (subst (All IsServed) e (v.served serves on));
}
Step-Inv {h} {k} {s = s} (handles c cs p sched xs w ys e f g) v =
    handles-Inv h k c cs p sched xs w ys s e f g v
Step-Inv {s = s} (ends n e) v = record {
  order = v.order;
  counted = omega (arith, v.counted);
  exact = v.exact;
  served = v.served;
}
Step-Inv {s = s} stops v = record {
  order = v.order;
  counted = v.counted;
  exact = λ on. absurd (ground arith);
  served = λ serves on. absurd (ground arith);
}

Reach-Inv : {h : Handler} {k : Kernel} {s t : System} → IsNew s → Reach h k s t → Inv k t
Reach-Inv {k = k} n here = new-Inv k n
Reach-Inv n (later r st) = Step-Inv st (Reach-Inv n r)

-- In every state that a new pool reaches, whatever its threads and the kernel do in whichever order:
-- the launched tasks and then the queued ones are the posted tasks, each once and in the order of the
-- posts; and the pool's counter is the number of launched fibers that did not end, so that no worker
-- leaves before they did.
pub tasks_in_order :
    {h : Handler} {k : Kernel} {s t : System}
    → IsNew s
    → Reach h k s t
    → (t.launched ++ t.pool.work_queue ≡ t.posted)
      × (t.pool.in_flight ≡ t.live)
      × (may_exit t.pool ≡ true → t.live ≡ 0)
unfolding may_exit
tasks_in_order {t = t} n r =
    let v = Reach-Inv n r in (v.order, v.counted, λ e. zero_live v.counted e)
  where
    zero_live :
        t.pool.in_flight ≡ t.live
        → (not t.pool.running && t.pool.in_flight == 0) ≡ true
        → t.live ≡ 0
    zero_live c e = ground arith

-- A thread that will take a token: its read is armed, or it has still to handle that one failed, and
-- arms it again then.
abbrev pub WillRead : Worker → Type 0
WillRead w = (w.armed ≡ true) ⊎ (1 ≤ failed_in w.cqes)

all_read : (ws : List Worker) → All IsServed ws → received ws ≡ 0 → All WillRead ws
all_read [] h e = tt
all_read (w ∷ ws) h e = (one h.0, all_read ws h.1 (omega arith))
  where
    one : IsServed w → WillRead w
    one (inl a) = inl a
    one (inr t) = inr (omega arith)

-- No wakeup is lost, with a kernel that has a vacant entry and takes every submission: in every state
-- that a new pool reaches, while it runs and a task is queued, the poster of a task has still to write
-- to the eventfd, or a thread has a token in its ring that it will launch a task for, or the eventfd
-- holds a token and every thread has a read armed that takes it or has still to handle that its read
-- failed, on which it arms one again; and the queue is as long as the number of all these tokens.
pub no_lost_wakeup :
    {h : Handler} {k : Kernel} {s t : System}
    → Serves k
    → IsNew s
    → Reach h k s t
    → t.pool.running ≡ true
    → 1 ≤ length t.pool.work_queue
    → (length t.pool.work_queue ≡ t.pool.tokens + t.writes + received t.workers)
      × ((1 ≤ t.writes) ⊎ (1 ≤ received t.workers) ⊎ ((1 ≤ t.pool.tokens) × All WillRead t.workers))
no_lost_wakeup {k = k} {t = t} serves n r on queued =
    (v.exact on, split t.writes (received t.workers) refl refl)
  where
    v : Inv k t
    v = Reach-Inv n r

    split :
        (a b : ℕ)
        → t.writes ≡ a
        → received t.workers ≡ b
        → (1 ≤ t.writes) ⊎ (1 ≤ received t.workers) ⊎ ((1 ≤ t.pool.tokens) × All WillRead t.workers)
    split (suc a) b e f = inl (omega arith)
    split zero (suc b) e f = inr (inl (omega arith))
    split zero zero e f =
        inr (inr (omega (arith, v.exact on), all_read t.workers (v.served serves on) f))
