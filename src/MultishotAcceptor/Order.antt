-- ===== src/MultishotAcceptor/Order.antt =====
-- Every accepted descriptor is handed out once, in the order of acceptance.
use mathlib.Core.List.{append_assoc, append-nil}
use fiberexec.Base.{ℕ, ℤ, ◌≡◌, sym, ◌∙◌, ap, true, false, List, [], ◌++◌, none, some, arith}
use fiberexec.Runtime.Uring.{Kernel}
use fiberexec.FiberOps.{StopToken}
use fiberexec.MultishotAcceptor.{Acceptor, deliver, complete, next_start, next_resume}
use fiberexec.MultishotAcceptor.System.{
  System, Step, completes, calls, resumes, Reach, here, later, IsNew, fds_of, fds_of_answer,
  after_complete, after_call, after_resume, received, given,
}

pub record Inv (s : System) : Type 0 where
  pub order : s.handed ++ (fds_of_answer s.obj.answer ++ s.obj.pending_fds) ≡ s.accepted
  pub engaged :
      s.obj.waiter ≡ true → (s.obj.answer ≡ none) × (s.obj.pending_fds ≡ []) × (s.waiting ≡ true)
  pub idle : s.waiting ≡ false → (s.obj.waiter ≡ false) × (s.obj.answer ≡ none)

new-Inv : {s : System} → IsNew s → Inv s
new-Inv n = record {
  order = ground arith;
  engaged = λ on. ground arith;
  idle = λ off. ground arith;
}

received_lem : (res : ℤ) → received (next_resume res) ≡ fds_of res
unfolding next_resume
received_lem res = ground arith

-- What the object holds for the fiber: the answer that it will resume with, then the queue.
abbrev held : Acceptor → List ℤ
held a = fds_of_answer a.answer ++ a.pending_fds

held-deliver :
    (res : ℤ) (a : Acceptor)
    → (a.waiter ≡ true → (a.answer ≡ none) × (a.pending_fds ≡ []))
    → held (deliver res a) ≡ held a ++ fds_of res
unfolding deliver
held-deliver res a engaged = ground (
  arith,
  append_assoc (fds_of_answer a.answer) a.pending_fds (fds_of res),
  append-nil (fds_of res),
  append-nil (held a),
)

held-next_start :
    (st : StopToken) (a : Acceptor)
    → a.answer ≡ none
    → given (next_start st a).0 ++ held (next_start st a).1 ≡ held a
unfolding next_start
held-next_start st a e = ground arith

after_complete-Inv :
    (k : Kernel) (res : ℤ) (flags : ℕ) (s : System) → Inv s → Inv (after_complete k res flags s)
unfolding complete
after_complete-Inv k res flags s v = record {
  order =
      ap (◌++◌ s.handed) (held-deliver res s.obj (λ w. ground arith))
      ∙ sym (append_assoc s.handed (held s.obj) (fds_of res))
      ∙ ap (λ (l : List ℤ). l ++ fds_of res) v.order;
  engaged = λ on. ground arith;
  idle = λ off. ground arith;
}

after_call-Inv : (st : StopToken) (s : System) → s.waiting ≡ false → Inv s → Inv (after_call st s)
unfolding next_start
after_call-Inv st s w v = record {
  order =
      append_assoc s.handed (given (next_start st s.obj).0) (held (next_start st s.obj).1)
      ∙ ap (◌++◌ s.handed) (held-next_start st s.obj (v.idle w).1)
      ∙ v.order;
  engaged = λ on. ground arith;
  idle = λ off. ground arith;
}

after_resume-Inv :
    (res : ℤ) (s : System) → s.obj.answer ≡ some res → Inv s → Inv (after_resume res s)
after_resume-Inv res s e v = record {
  order =
      append_assoc s.handed (received (next_resume res)) s.obj.pending_fds
      ∙ ap (λ (l : List ℤ). s.handed ++ (l ++ s.obj.pending_fds))
          (received_lem res ∙ ap fds_of_answer (sym e))
      ∙ v.order;
  engaged = λ on. ground arith;
  idle = λ off. ground arith;
}

Step-Inv : {k : Kernel} {s t : System} → Step k s t → Inv s → Inv t
Step-Inv {k} {s} (completes res flags _) v = after_complete-Inv k res flags s v
Step-Inv {k} {s} (calls st w) v = after_call-Inv st s w v
Step-Inv {k} {s} (resumes res _ e) v = after_resume-Inv res s e v

pub Reach-Inv : {k : Kernel} {s t : System} → IsNew s → Reach k s t → Inv t
Reach-Inv n here = new-Inv n
Reach-Inv n (later r st) = Step-Inv st (Reach-Inv n r)

-- In every state that a new acceptor reaches, whatever the kernel completes and whenever the fiber
-- calls `next`: the descriptors that `next` returned, the one that a suspended `next` will return,
-- and the queue make up the accepted descriptors, each once and in the order of acceptance.
pub accepted_in_order :
    {k : Kernel} {s t : System}
    → IsNew s
    → Reach k s t
    → t.handed ++ (fds_of_answer t.obj.answer ++ t.obj.pending_fds) ≡ t.accepted
accepted_in_order n r = (Reach-Inv n r).order
