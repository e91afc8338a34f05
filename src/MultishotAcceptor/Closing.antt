-- ===== src/MultishotAcceptor/Closing.antt =====
-- A descriptor that is closed by a fiber, as the kernel sees it.
use fiberexec.Base.{ℕ, ◌≡◌, refl, sym, ap, ◌∙◌, ℤ, is_neg, false, List, [], ◌∷◌, ◌++◌}
use mathlib.Core.List.{append_assoc}
use fiberexec.Runtime.Uring.{Op, Sqe, Ring, Kernel}
use fiberexec.Runtime.Thread.{Thread, ok}
use fiberexec.FiberOps.Submission.{IsOpen, Serves, handler_of}
use fiberexec.AsyncIo.{async_close}
use fiberexec.AsyncIo.Request.{close, entry_of}
use fiberexec.AsyncIo.Runs.{close-Runs}

-- The descriptors that were closed, in order.
abbrev pub closed_by : Op → List ℤ
closed_by (Op.close fd) = fd ∷ []
closed_by _ = []

abbrev pub closes_of : List Sqe → List ℤ
closes_of [] = []
closes_of (e ∷ es) = closed_by e.op ++ closes_of es

abbrev pub closes_in : List (List Sqe) → List ℤ
closes_in [] = []
closes_in (b ∷ bs) = closes_of b ++ closes_in bs

abbrev pub closed : Ring → List ℤ
closed r = closes_in r.sent

pub closes_in-append :
    (xs ys : List (List Sqe)) → closes_in (xs ++ ys) ≡ closes_in xs ++ closes_in ys
closes_in-append [] ys = refl
closes_in-append (b ∷ xs) ys =
    ap (◌++◌ (closes_of b)) (closes_in-append xs ys)
    ∙ sym (append_assoc (closes_of b) (closes_in xs) (closes_in ys))

-- A kernel that serves, closes what it is asked to, and nobody stops the fiber.
pub record Obeys (k : Kernel) : Type 0 where
  pub serves : Serves k
  pub succeeds : (r : Ring) (h : ℕ) → is_neg (k.result r h) ≡ false
  pub unstopped : (r : Ring) (h : ℕ) → k.fiber_stops r h ≡ false

-- A fiber after it closed a descriptor.
abbrev pub HasClosed : Kernel → ℤ → Thread → Type 0
HasClosed k fd t =
    (t' : Thread) × (async_close fd k t ≡ (ok tt, t'))
    × IsOpen t'
    × (closed t'.ring ≡ closed t.ring ++ (fd ∷ []))

pub async_close_lem : {k : Kernel} → Obeys k → (fd : ℤ) (t : Thread) → IsOpen t → HasClosed k fd t
async_close_lem {k} o fd t g =
    let (t', ran, g', ring) =
      close-Runs (record { serves = o.serves; unstopped = o.unstopped }) fd t g in
    (
      t',
      ran ∙ rw (o.succeeds _ _) refl,
      g',
      ap closed ring
          ∙ closes_in-append t.ring.sent ((entry_of (close fd) (handler_of t) ∷ []) ∷ []),
    )
