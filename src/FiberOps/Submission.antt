-- ===== src/FiberOps/Submission.antt =====
-- What the submission helpers hand to the kernel, and what the fiber gets back.
use fiberexec.Base.{
  length, length-snoc, suc, ℕ, suc, ◌*◌, ◌≡◌, refl, sym, subst, ap, ◌∙◌, ℤ, pos, is_neg, Bool, true,
  false, List, [], ◌∷◌, ◌++◌, some, String, arith,
}
use fiberexec.Runtime.Abi.{ecanceled}
use fiberexec.Runtime.Uring.{
  Op, Sqe, Ring, Kernel, prep, set_data, edit, submit as ring_submit, get_sqe as ring_get_sqe,
}
use fiberexec.Runtime.Thread.{
  system_error, Outcome, ok, err, fault, Thread, M, ◌>>=◌, ◌>>◌, when, get_sqe, write_sqe, continue,
}
use fiberexec.FiberOps.{
  stop_requested, begin_async_op, submit_and_wait, request_cancel, watch_stops, set_fixed_file,
}

-- A fiber on a worker whose operation was not stopped, with no entry left over in the queue.
pub record IsReady (t : Thread) : Type 0 where
  pub on_worker : t.has_ring ≡ true
  pub running : stop_requested t.fiber_stop ≡ false

pub begin_async_op-ready :
    (caller : String) (k : Kernel) (t : Thread) → IsReady t → begin_async_op caller k t ≡ (ok tt, t)
unfolding begin_async_op
begin_async_op-ready caller k t r = ground arith

pub begin_async_op-stopped :
    (caller : String) (k : Kernel) (t : Thread)
    → t.has_ring ≡ true
    → stop_requested t.fiber_stop ≡ true
    → begin_async_op caller k t ≡ (err (system_error (pos ecanceled) caller), t)
unfolding begin_async_op
begin_async_op-stopped caller k t on stopped = ground arith

-- The address of the handler that the next wait puts on the stack.
abbrev pub handler_of : Thread → ℕ
handler_of t = 8 * suc t.frames

-- The ring once the entries in it were submitted.
abbrev pub flushed : Ring → Ring
flushed r = record { sq = []; sent = r.sent ++ (r.sq ∷ []) }

-- A submission that the kernel takes hands over every entry in the queue.
pub submit_ok :
    (k : Kernel) (r : Ring)
    → is_neg (k.submit_ret r) ≡ false
    → ring_submit k r ≡ (k.submit_ret r, flushed r)
unfolding ring_submit
submit_ok k r h = rw (h, ring_submit)

pub submit_and_wait_outcome :
    (k : Kernel) (t : Thread) (i : ℕ) (r : Ring)
    → edit i (set_data (handler_of t)) t.ring ≡ r
    → is_neg (k.submit_ret r) ≡ false
    → ((submit_and_wait (some i) k t).0 ≡ ok (k.result (flushed r) (handler_of t)))
      × ((submit_and_wait (some i) k t).1.ring ≡ flushed r)
unfolding submit_and_wait watch_stops request_cancel ring_submit
submit_and_wait_outcome k t i r e h = ground arith

-- A thread whose queue holds one prepared entry.
abbrev pub holding : Thread → Sqe → Thread
holding t e = record t { ring = record { sq = e ∷ []; sent = t.ring.sent } }

abbrev pub clean : Thread → Thread
clean t = record t { ring = record { sq = []; sent = t.ring.sent } }

pub clean-eq : (t : Thread) → t.ring.sq ≡ [] → clean t ≡ t
clean-eq t e = λ i. record t { ring = record { sq = sym e i; sent = t.ring.sent } }

pub of_clean {ℓ} : (P : Thread → Type ℓ) (t : Thread) → t.ring.sq ≡ [] → P (clean t) → P t
of_clean P t e = subst P (clean-eq t e)

pub to_clean {ℓ} : (P : Thread → Type ℓ) (t : Thread) → t.ring.sq ≡ [] → P t → P (clean t)
to_clean P t e = subst P (sym (clean-eq t e))

-- The ring after one batch more.
abbrev pub sent_after : Ring → List Sqe → Ring
sent_after r batch = record { sq = []; sent = r.sent ++ (batch ∷ []) }

abbrev pub entry : Op → Bool → ℕ → Sqe
entry p fixed handler = record (prep p) { fixed_file = fixed; user_data = handler }

-- What every call does once it is let through.
abbrev pub submit_one : {A : Type 0} → Op → Bool → (ℤ → M A) → M A
submit_one p fixed f = do
  sqe ← get_sqe
  write_sqe sqe (λ e. prep p)
  when fixed (write_sqe sqe set_fixed_file)
  res ← submit_and_wait sqe
  f res

pub bind_assoc :
    {A B C : Type 0} (k : Kernel) (f : A → M B) (g : B → M C) (x : Outcome A × Thread)
    → continue k g (continue k f x) ≡ continue k (λ a. f a >>= g) x
bind_assoc k f g (ok a, t) = refl
bind_assoc k f g (err e, t) = refl
bind_assoc k f g (fault, t) = refl

module _ (k : Kernel) (t : Thread) (room : k.room (clean t).ring ≡ true) where
  -- The thread in which a call goes on, once its entry was submitted and completed.
  abbrev pub resumed : Op → Bool → Thread
  resumed p fixed = (submit_and_wait (some 0) k (holding t (entry p fixed 0))).1

  submit_one-continue :
      {A : Type 0} (p : Op) (fixed : Bool) (f : ℤ → M A)
      → submit_one p fixed f k (clean t)
        ≡ continue k f (submit_and_wait (some 0) k (holding t (entry p fixed 0)))
  unfolding ring_get_sqe edit
  submit_one-continue p true f = rw (room, ring_get_sqe)
  submit_one-continue p false f = rw (room, ring_get_sqe)

  pub submit_one_runs :
      {A : Type 0} (p : Op) (fixed : Bool) (f : ℤ → M A)
      → is_neg (k.submit_ret (holding t (entry p fixed (handler_of t))).ring) ≡ false
      → (submit_one p fixed f k (clean t)
          ≡ f
              (k.result (sent_after t.ring (entry p fixed (handler_of t) ∷ [])) (handler_of t))
              k
              (resumed p fixed))
        × ((resumed p fixed).ring ≡ sent_after t.ring (entry p fixed (handler_of t) ∷ []))
  unfolding edit
  submit_one_runs p fixed f ret = (
    submit_one-continue p fixed f ∙ ap (λ o. continue k f (o, resumed p fixed)) outcome.0,
    outcome.1,
  )
    where
      outcome :
          ((submit_and_wait (some 0) k (holding t (entry p fixed 0))).0
            ≡ ok (k.result (sent_after t.ring (entry p fixed (handler_of t) ∷ [])) (handler_of t)))
          × ((resumed p fixed).ring ≡ sent_after t.ring (entry p fixed (handler_of t) ∷ []))
      outcome =
          submit_and_wait_outcome k (holding t (entry p fixed 0)) 0
            (holding t (entry p fixed (handler_of t))).ring refl ret

  pub submit_one-bind :
      {A B : Type 0} (p : Op) (fixed : Bool) (f : ℤ → M A) (g : A → M B)
      → (submit_one p fixed f >>= g) k (clean t)
        ≡ submit_one p fixed (λ res. f res >>= g) k (clean t)
  submit_one-bind p fixed f g =
      ap (continue k g) (submit_one-continue p fixed f)
      ∙ bind_assoc k f g (submit_and_wait (some 0) k (holding t (entry p fixed 0)))
      ∙ sym (submit_one-continue p fixed (λ res. f res >>= g))

-- A fiber on a worker that was not stopped, with no entry left over.
pub record IsOpen (t : Thread) : Type 0 where
  pub on_worker : t.has_ring ≡ true
  pub going : stop_requested t.fiber_stop ≡ false
  pub no_entries : t.ring.sq ≡ []

-- A wait leaves the thread where it was, and its token as it was where nobody stops the fiber.
submit_and_wait-keeps :
    (k : Kernel) (t : Thread) (i : ℕ) (r : Ring)
    → edit i (set_data (handler_of t)) t.ring ≡ r
    → is_neg (k.submit_ret r) ≡ false
    → k.fiber_stops (flushed r) (handler_of t) ≡ false
    → stop_requested t.fiber_stop ≡ false
    → ((submit_and_wait (some i) k t).1.has_ring ≡ t.has_ring)
      × (stop_requested (submit_and_wait (some i) k t).1.fiber_stop ≡ false)
unfolding submit_and_wait watch_stops request_cancel ring_submit
submit_and_wait-keeps k t i r e h f g = ground arith

module _ (k : Kernel) (t : Thread) (room : k.room (clean t).ring ≡ true) where
  pub resumed-keeps :
      (p : Op) (fixed : Bool)
      → is_neg (k.submit_ret (holding t (entry p fixed (handler_of t))).ring) ≡ false
      → k.fiber_stops (sent_after t.ring (entry p fixed (handler_of t) ∷ [])) (handler_of t) ≡ false
      → stop_requested t.fiber_stop ≡ false
      → ((resumed k t room p fixed).has_ring ≡ t.has_ring)
        × (stop_requested (resumed k t room p fixed).fiber_stop ≡ false)
  unfolding edit
  resumed-keeps p fixed takes unstopped going =
      submit_and_wait-keeps k (holding t (entry p fixed 0)) 0
        (holding t (entry p fixed (handler_of t))).ring refl takes unstopped going

-- A kernel that has a vacant entry whenever one is asked for, and takes every submission.
pub record Serves (k : Kernel) : Type 0 where
  pub room : (r : Ring) → k.room r ≡ true
  pub takes : (r : Ring) → is_neg (k.submit_ret r) ≡ false

pub sent_once :
    {k : Kernel} → Serves k → (r : Ring) → length (ring_submit k r).1.sent ≡ suc (length r.sent)
sent_once {k} serves r = rw (submit_ok k r (serves.takes r)) (length-snoc r.sent r.sq)
