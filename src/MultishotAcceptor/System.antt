-- ===== src/MultishotAcceptor/System.antt =====
-- An acceptor with its environment: the kernel completes the armed entry, and one fiber calls `next`.
use fiberexec.Base.{
  ℕ, ℤ, ◌≡◌, is_neg, Bool, true, false, ◌||◌, List, [], ◌∷◌, ◌++◌, Option, none, some, length, ltb,
  if◌then◌else◌,
}
use fiberexec.Runtime.Abi.{has_more}
use fiberexec.Runtime.Uring.{Ring, Kernel}
use fiberexec.Runtime.Thread.{Outcome, ok}
use fiberexec.FiberOps.{StopToken}
use fiberexec.MultishotAcceptor.{
  Acceptor, Start, returned, suspended, complete, next_start, next_resume,
}

-- `armed`: the kernel holds an accept entry of the object. `waiting`: the fiber is suspended in `next`.
-- `accepted` and `handed` are the descriptors that the kernel made and that `next` returned, in order.
pub record System : Type 0 where
  pub obj : Acceptor
  pub ring : Ring
  pub armed : Bool
  pub waiting : Bool
  pub accepted : List ℤ
  pub handed : List ℤ

abbrev pub fds_of : ℤ → List ℤ
fds_of res = if is_neg res then [] else (res ∷ [])

abbrev pub fds_of_answer : Option ℤ → List ℤ
fds_of_answer none = []
fds_of_answer (some res) = fds_of res

abbrev pub given : Start → List ℤ
given (returned (some fd)) = fd ∷ []
given _ = []

abbrev pub is_suspended : Start → Bool
is_suspended suspended = true
is_suspended _ = false

abbrev pub received : Outcome (Option ℤ) → List ℤ
received (ok (some fd)) = fd ∷ []
received _ = []

-- A completion without the MORE flag ends the entry; a submission during `complete` arms a new one.
abbrev pub after_complete : Kernel → ℤ → ℕ → System → System
after_complete k res flags s = record s {
  obj = (complete k res flags s.obj s.ring).0;
  ring = (complete k res flags s.obj s.ring).1;
  armed =
      has_more flags
      || ltb (length s.ring.sent) (length (complete k res flags s.obj s.ring).1.sent);
  accepted = s.accepted ++ fds_of res;
}

abbrev pub after_call : StopToken → System → System
after_call st s = record s {
  obj = (next_start st s.obj).1;
  waiting = is_suspended (next_start st s.obj).0;
  handed = s.handed ++ given (next_start st s.obj).0;
}

-- The promise dies when `next` returns.
abbrev pub after_resume : ℤ → System → System
after_resume res s = record s {
  obj = record s.obj { answer = none };
  waiting = false;
  handed = s.handed ++ received (next_resume res);
}

pub data Step (k : Kernel) (s : System) : System → Type 0 where
  completes : (res : ℤ) (flags : ℕ) → s.armed ≡ true → Step k s (after_complete k res flags s)
  calls : (st : StopToken) → s.waiting ≡ false → Step k s (after_call st s)
  resumes : (res : ℤ) → s.waiting ≡ true → s.obj.answer ≡ some res → Step k s (after_resume res s)

pub data Reach (k : Kernel) (s : System) : System → Type 0 where
  here : Reach k s s
  later : {t u : System} → Reach k s t → Step k t u → Reach k s u

-- A constructed acceptor: its entry is armed, and nothing was accepted.
pub record IsNew (s : System) : Type 0 where
  pub armed : s.armed ≡ true
  pub waiting : s.waiting ≡ false
  pub no_fds : s.obj.pending_fds ≡ []
  pub no_waiter : s.obj.waiter ≡ false
  pub no_answer : s.obj.answer ≡ none
  pub no_error : s.obj.error ≡ ℤ.pos 0
  pub none_accepted : s.accepted ≡ []
  pub none_handed : s.handed ≡ []
