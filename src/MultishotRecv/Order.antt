-- ===== src/MultishotRecv/Order.antt =====
-- Messages are handed out in the order of arrival, and a fiber is woken only with a reason.
use mathlib.Core.List.{append_assoc, append-nil}
use fiberexec.Base.{
  subst, zero, negsuc, ℕ, ℤ, pos, suc, ◌≡◌, ◌≢◌, refl, sym, ◌∙◌, ap, is_positive, true, false, List,
  [], ◌∷◌, ◌++◌, arith,
}
use fiberexec.Runtime.Uring.{Kernel, Ring}
use fiberexec.FiberOps.{StopToken}
use fiberexec.MultishotRecv.Buffer.{Item}
use fiberexec.MultishotRecv.{Recv, complete, next_start, next_resume, return_buffer}
use fiberexec.MultishotRecv.System.{
  System, Step, arrives, ends_with_buffer, ends_without, calls, resumes, releases, Reach, here,
  later, IsNew, after_complete, after_call, after_resume, after_release, received, given,
  is_suspended, message, without_front,
}

pub record Inv (s : System) : Type 0 where
  pub order : s.handed ++ s.obj.pending ≡ s.arrived
  pub idle : s.waiting ≡ false → (s.obj.waiter ≡ false) × (s.obj.woken ≡ false)
  pub once : s.obj.woken ≡ true → s.obj.waiter ≡ false
  pub reason : s.obj.woken ≡ true → s.obj.pending ≡ [] → s.obj.error ≢ pos 0

new-Inv : {n : ℕ} {s : System} → IsNew n s → Inv s
new-Inv n = record {
  order = ground arith;
  idle = λ w. ground arith;
  once = λ w. ground arith;
  reason = λ w. ground arith;
}

-- The messages that a completion brings.
abbrev brought : ℤ → ℕ → List Item
brought (pos (suc n)) flags = message (suc n) flags ∷ []
brought _ flags = []

pending-complete :
    (k : Kernel) (res : ℤ) (flags : ℕ) (a : Recv) (r : Ring)
    → (complete k res flags a r).0.pending ≡ a.pending ++ brought res flags
unfolding complete return_buffer
pending-complete k (pos (suc n)) flags a r = ground arith
pending-complete k res flags a r = ground (arith, append-nil a.pending)

snoc_some {ℓ} : {A : Type ℓ} → (xs : List A) (x : A) → (xs ++ (x ∷ [])) ≢ []
snoc_some [] x = ground arith
snoc_some (y ∷ xs) x = ground arith

complete-reason :
    (k : Kernel) (res : ℤ) (flags : ℕ) (a : Recv) (r : Ring)
    → (complete k res flags a r).0.pending ≡ []
    → (complete k res flags a r).0.error ≢ pos 0
unfolding complete return_buffer
complete-reason k (pos zero) flags a r none_left = ground arith
complete-reason k (pos (suc n)) flags a r none_left = absurd (
    snoc_some a.pending (message (suc n) flags)
      (sym (pending-complete k (pos (suc n)) flags a r) ∙ none_left))
complete-reason k (negsuc n) flags a r none_left = ground arith

complete-waiter :
    (k : Kernel) (res : ℤ) (flags : ℕ) (a : Recv) (r : Ring)
    → (a.waiter ≡ false) × (a.woken ≡ false)
    → ((complete k res flags a r).0.waiter ≡ false) × ((complete k res flags a r).0.woken ≡ false)
unfolding complete return_buffer
complete-waiter k res flags a r e = ground arith

complete-once :
    (k : Kernel) (res : ℤ) (flags : ℕ) (a : Recv) (r : Ring)
    → (a.woken ≡ true → a.waiter ≡ false)
    → (complete k res flags a r).0.woken ≡ true
    → (complete k res flags a r).0.waiter ≡ false
unfolding complete return_buffer
complete-once k res flags a r e = ground arith

-- The object up to its ring of buffers.
pub record IsLike (a b : Recv) : Type 0 where
  pub pending : a.pending ≡ b.pending
  pub waiter : a.waiter ≡ b.waiter
  pub woken : a.woken ≡ b.woken
  pub error : a.error ≡ b.error

complete-Inv :
    (k : Kernel) (res : ℤ) (flags : ℕ) (a : Recv) (s : System)
    → IsLike a s.obj
    → Inv s
    → Inv (after_complete k res flags a (brought res flags) s)
complete-Inv k res flags a s l v = record {
  order =
      ap (◌++◌ s.handed) (
        pending-complete k res flags a s.ring
        ∙ ap (λ (x : List Item). x ++ brought res flags) l.pending)
      ∙ sym (append_assoc s.handed s.obj.pending (brought res flags))
      ∙ ap (λ (x : List Item). x ++ brought res flags) v.order;
  idle = λ off.
      complete-waiter k res flags a s.ring (l.waiter ∙ (v.idle off).0, l.woken ∙ (v.idle off).1);
  once = complete-once k res flags a s.ring (λ on. l.waiter ∙ v.once (sym l.woken ∙ on));
  reason = λ _ none_left. complete-reason k res flags a s.ring none_left;
}

given_lem :
    (st : StopToken) (a : Recv)
    → given (next_start st a).0 ++ (next_start st a).1.pending ≡ a.pending
unfolding next_start
given_lem st a = ground arith

received_lem : (a : Recv) → received (next_resume a).0 ++ (next_resume a).1.pending ≡ a.pending
unfolding next_resume
received_lem a = ground arith

call-idle :
    (st : StopToken) (a : Recv)
    → (a.waiter ≡ false) × (a.woken ≡ false)
    → is_suspended (next_start st a).0 ≡ false
    → ((next_start st a).1.waiter ≡ false) × ((next_start st a).1.woken ≡ false)
unfolding next_start
call-idle st a e off = ground arith

call-asleep : (st : StopToken) (a : Recv) → a.woken ≡ false → (next_start st a).1.woken ≡ false
unfolding next_start
call-asleep st a e = ground arith

call-Inv : (st : StopToken) (s : System) → s.waiting ≡ false → Inv s → Inv (after_call st s)
call-Inv st s w v = record {
  order =
      append_assoc s.handed (given (next_start st s.obj).0) (next_start st s.obj).1.pending
      ∙ ap (◌++◌ s.handed) (given_lem st s.obj)
      ∙ v.order;
  idle = λ off. call-idle st s.obj (v.idle w) off;
  once = λ on. cc (call-asleep st s.obj (v.idle w).1);
  reason = λ on. cc (call-asleep st s.obj (v.idle w).1);
}

resume-Inv : (s : System) → s.obj.woken ≡ true → Inv s → Inv (after_resume s)
unfolding next_resume
resume-Inv s on v = record {
  order =
      append_assoc s.handed (received (next_resume s.obj).0) (next_resume s.obj).1.pending
      ∙ ap (◌++◌ s.handed) (received_lem s.obj)
      ∙ v.order;
  idle = λ off. ground arith;
  once = λ awake. ground arith;
  reason = λ awake. ground arith;
}

release-Inv :
    (xs : List ℕ) (id : ℕ) (ys : List ℕ) (s : System) → Inv s → Inv (after_release xs id ys s)
unfolding return_buffer
release-Inv xs id ys s v = record {
  order = v.order;
  idle = v.idle;
  once = v.once;
  reason = v.reason;
}

alike : (rest : List ℕ) (a : Recv) → IsLike (without_front rest a) a
alike rest a = record { pending = refl; waiter = refl; woken = refl; error = refl }

alike_self : (a : Recv) → IsLike a a
alike_self a = record { pending = refl; waiter = refl; woken = refl; error = refl }

brought_none : (res : ℤ) (flags : ℕ) → is_positive res ≡ false → brought res flags ≡ []
brought_none (pos zero) flags e = refl
brought_none (pos (suc n)) flags e = ground arith
brought_none (negsuc n) flags e = refl

ends-Inv :
    (k : Kernel) (res : ℤ) (flags : ℕ) (a : Recv) (s : System)
    → IsLike a s.obj
    → is_positive res ≡ false
    → Inv s
    → Inv (after_complete k res flags a [] s)
ends-Inv k res flags a s l e v =
    subst (λ (new : List Item). Inv (after_complete k res flags a new s)) (brought_none res flags e)
      (complete-Inv k res flags a s l v)

Step-Inv : {k : Kernel} {s t : System} → Step k s t → Inv s → Inv t
Step-Inv {k} {s} (arrives n flags rest _ _) v =
    complete-Inv k (pos (suc n)) flags (without_front rest s.obj) s (alike rest s.obj) v
Step-Inv {k} {s} (ends_with_buffer res flags rest _ e _ _) v =
    ends-Inv k res flags (without_front rest s.obj) s (alike rest s.obj) e v
Step-Inv {k} {s} (ends_without res flags _ e _) v =
    ends-Inv k res flags s.obj s (alike_self s.obj) e v
Step-Inv {k} {s} (calls st w) v = call-Inv st s w v
Step-Inv {k} {s} (resumes _ on) v = resume-Inv s on v
Step-Inv {k} {s} (releases xs id ys _) v = release-Inv xs id ys s v

pub Reach-Inv : {k : Kernel} {n : ℕ} {s t : System} → IsNew n s → Reach k s t → Inv t
Reach-Inv n here = new-Inv n
Reach-Inv n (later r st) = Step-Inv st (Reach-Inv n r)

-- In every state that a new receiver reaches, the messages that `next` returned and the pending ones
-- make up the messages that arrived, each once and in the order of arrival; and a fiber that is about
-- to resume with no pending message resumes after an error or an end of stream.
pub messages_in_order :
    {k : Kernel} {n : ℕ} {s t : System}
    → IsNew n s
    → Reach k s t
    → (t.handed ++ t.obj.pending ≡ t.arrived)
      × (t.obj.woken ≡ true → t.obj.pending ≡ [] → t.obj.error ≢ pos 0)
messages_in_order n r = ((Reach-Inv n r).order, (Reach-Inv n r).reason)
