-- ===== src/Tests/Destructors.antt =====
-- The destructors of the multishot objects, with what they still get from the kernel.
use fiberexec.Base.{
  List, ℤ, is_empty, if◌then◌else◌, ℕ, ◌≡◌, ◌+◌, ◌^◌, refl, pos, minus, eq_ℤ, true, false, [], ◌∷◌,
  none, arith,
}
use fiberexec.Base.Range.{count}
use fiberexec.Runtime.Abi.{ecanceled}
use fiberexec.Runtime.Thread.{Thread, ok}
use fiberexec.Runtime.Uring.{Ring}
use fiberexec.MultishotAcceptor.{Acceptor, destroy, finished}
use fiberexec.FiberOps.Submission.{IsOpen}
use fiberexec.MultishotAcceptor.Closing.{Obeys, closed}
use fiberexec.MultishotAcceptor.Destruction.{batches}
use fiberexec.MultishotAcceptor.Destruction.Ends.{destroy_closes}
use fiberexec.MultishotRecv as Receiver
use fiberexec.MultishotRecv.Destruction.Ends as ReceiverEnds
use fiberexec.MultishotRecv.Destruction.Ends.{destroy_returns}
use fiberexec.Tests.Fixtures.{kernel, kernel-Serves, thread}

kernel-Obeys : Obeys kernel
kernel-Obeys = record { serves = kernel-Serves; succeeds = λ r h. refl; unstopped = λ r h. refl }

thread-IsOpen : IsOpen thread
thread-IsOpen = record { on_worker = refl; going = refl; no_entries = refl }

-- It holds 7; 8 comes alone, and 9 with the end.
abbrev acceptor : Acceptor
acceptor = record {
  self = 64;
  server_fd = pos 3;
  addr = 0;
  addrlen = 0;
  pending_fds = pos 7 ∷ [];
  waiter = false;
  answer = none;
  error = pos 0;
}

-- Once the server's descriptor was shut down the entry ends; until then nothing comes.
abbrev after_shutdown : List ℤ → List (List (ℤ × ℕ))
after_shutdown [] = []
after_shutdown (fd ∷ fds) = batches (((8, 2) ∷ []) ∷ []) ((9, 0) ∷ [])

destroy_closes_example :
    (t' : Thread) × (destroy 6 after_shutdown acceptor kernel thread ≡ (ok finished, t'))
    × IsOpen t'
    × (closed t'.ring ≡ pos 7 ∷ pos 8 ∷ pos 9 ∷ [])
destroy_closes_example =
    destroy_closes kernel-Obeys (((8, 2) ∷ []) ∷ []) ((9, 0) ∷ []) acceptor 6 after_shutdown thread
      thread-IsOpen (λ live. refl) (omega arith)

-- A receiver of two buffers, one of them with a pending message; the other comes with a message, and
-- the cancelled end with none.
abbrev receiver : Receiver.Recv
receiver = record {
  self = 72;
  fd = pos 4;
  bgid = 0;
  buf_size = 16;
  buf_count = 2;
  storage = 32;
  buf_ring = true;
  ring_bufs = [];
  pending = record { buf_id = 0; size = 4 } ∷ [];
  waiter = false;
  woken = false;
  error = pos 0;
}

-- The flags of a completion in buffer 1, with more to come.
abbrev flags : ℕ
flags = 2 ^ 16 + 3

-- Once an entry was submitted, here the cancelling one, the armed one ends; until then nothing comes.
abbrev after_cancel : Ring → List (List (ℤ × ℕ))
after_cancel r =
    if is_empty r.sent
    then []
    else ReceiverEnds.batches kernel (minus ecanceled) 0 refl (((3, flags) ∷ []) ∷ []) []

destroy_returns_example :
    (a' : Receiver.Recv) × (t' : Thread) × (Receiver.destroy 4 after_cancel receiver kernel thread
      ≡ Receiver.free_ring (Receiver.finished, a') kernel t')
    × (a'.pending ≡ [])
    × (eq_ℤ a'.error (pos 0) ≡ false)
    × ((id : ℕ) → count id a'.ring_bufs ≡ 0 + count id (0 ∷ []) + count id (1 ∷ []))
destroy_returns_example =
    destroy_returns kernel-Serves (minus ecanceled) 0 refl (((3, flags) ∷ []) ∷ []) [] receiver 4
      after_cancel thread thread-IsOpen (λ live. refl) (omega arith)
