-- ===== src/MultishotRecv/System.antt =====
-- A receiver with its environment: the kernel fills the buffers of the ring and completes the armed
-- entry, one fiber calls `next`, and the handles that it got are destroyed in any order.
use fiberexec.Base.{
  ℕ, ℤ, pos, ◌≡◌, is_positive, Bool, true, false, ◌||◌, List, [], ◌∷◌, ◌++◌, Option, some, length,
  ltb, map,
}
use fiberexec.Base.Range.{range}
use fiberexec.Runtime.Abi.{has_more, has_buffer, buffer_of}
use fiberexec.Runtime.Uring.{Ring, Kernel}
use fiberexec.Runtime.Thread.{Outcome, ok}
use fiberexec.FiberOps.{StopToken}
use fiberexec.MultishotRecv.Buffer.{Item}
use fiberexec.MultishotRecv.{
  Recv, Start, returned, suspended, complete, next_start, next_resume, return_buffer,
}

-- `lent` are the buffers of live handles; `arrived` and `handed` are the messages that the kernel
-- delivered and that `next` returned, in order.
pub record System : Type 0 where
  pub obj : Recv
  pub ring : Ring
  pub armed : Bool
  pub waiting : Bool
  pub lent : List ℕ
  pub arrived : List Item
  pub handed : List Item

abbrev pub ids : List Item → List ℕ
ids = map λ item. item.buf_id

abbrev pub given : Start → List Item
given (returned (some item)) = item ∷ []
given _ = []

abbrev pub is_suspended : Start → Bool
is_suspended suspended = true
is_suspended _ = false

abbrev pub received : Outcome (Option Item) → List Item
received (ok (some item)) = item ∷ []
received _ = []

abbrev pub message : ℕ → ℕ → Item
message res flags = record { buf_id = buffer_of flags; size = res }

-- The kernel takes a buffer of the ring off its front when it uses it.
abbrev pub without_front : List ℕ → Recv → Recv
without_front rest a = record a { ring_bufs = rest }

abbrev pub after_complete : Kernel → ℤ → ℕ → Recv → List Item → System → System
after_complete k res flags a new s = record s {
  obj = (complete k res flags a s.ring).0;
  ring = (complete k res flags a s.ring).1;
  armed =
      has_more flags || ltb (length s.ring.sent) (length (complete k res flags a s.ring).1.sent);
  arrived = s.arrived ++ new;
}

abbrev pub after_call : StopToken → System → System
after_call st s = record s {
  obj = (next_start st s.obj).1;
  waiting = is_suspended (next_start st s.obj).0;
  handed = s.handed ++ given (next_start st s.obj).0;
  lent = s.lent ++ ids (given (next_start st s.obj).0);
}

abbrev pub after_resume : System → System
after_resume s = record s {
  obj = record (next_resume s.obj).1 { woken = false };
  waiting = false;
  handed = s.handed ++ received (next_resume s.obj).0;
  lent = s.lent ++ ids (received (next_resume s.obj).0);
}

abbrev pub after_release : List ℕ → ℕ → List ℕ → System → System
after_release xs id ys s = record s { obj = return_buffer id s.obj; lent = xs ++ ys }

-- A message comes in the buffer at the front of the ring; an end or an error comes with that buffer
-- unused, or with none.
pub data Step (k : Kernel) (s : System) : System → Type 0 where
  arrives :
      (n : ℕ) (flags : ℕ) (rest : List ℕ)
      → s.armed ≡ true
      → s.obj.ring_bufs ≡ buffer_of flags ∷ rest
      → Step k s (
          after_complete k
            (pos (ℕ.suc n))
            flags
            (without_front rest s.obj)
            (message (ℕ.suc n) flags ∷ [])
            s)
  ends_with_buffer :
      (res : ℤ) (flags : ℕ) (rest : List ℕ)
      → s.armed ≡ true
      → is_positive res ≡ false
      → has_buffer flags ≡ true
      → s.obj.ring_bufs ≡ buffer_of flags ∷ rest
      → Step k s (after_complete k res flags (without_front rest s.obj) [] s)
  ends_without :
      (res : ℤ) (flags : ℕ)
      → s.armed ≡ true
      → is_positive res ≡ false
      → has_buffer flags ≡ false
      → Step k s (after_complete k res flags s.obj [] s)
  calls : (st : StopToken) → s.waiting ≡ false → Step k s (after_call st s)
  resumes : s.waiting ≡ true → s.obj.woken ≡ true → Step k s (after_resume s)
  releases :
      (xs : List ℕ) (id : ℕ) (ys : List ℕ)
      → s.lent ≡ xs ++ id ∷ ys
      → Step k s (after_release xs id ys s)

pub data Reach (k : Kernel) (s : System) : System → Type 0 where
  here : Reach k s s
  later : {t u : System} → Reach k s t → Step k t u → Reach k s u

-- A constructed receiver of `count` buffers: all of them are in the ring.
pub record IsNew (count : ℕ) (s : System) : Type 0 where
  pub armed : s.armed ≡ true
  pub waiting : s.waiting ≡ false
  pub bufs : s.obj.ring_bufs ≡ range count
  pub no_items : s.obj.pending ≡ []
  pub no_waiter : s.obj.waiter ≡ false
  pub asleep : s.obj.woken ≡ false
  pub no_error : s.obj.error ≡ pos 0
  pub none_lent : s.lent ≡ []
  pub none_arrived : s.arrived ≡ []
  pub none_handed : s.handed ≡ []
