-- ===== src/Tests/Io.antt =====
-- Calls of the I/O functions on a worker.
use fiberexec.Base.{ℕ, ◌*◌, ◌+◌, ◌<◌, ℤ, pos, ◌≡◌, refl, true, false, [], ◌∷◌, none, some, arith}
use fiberexec.Runtime.Uring.{get_sqe, edit, submit, Op, Sqe, Span, prep}
use fiberexec.Runtime.Thread.{ok, fault}
use fiberexec.FiberOps.{
  install_fiber_stop_token, dispatch, submit_and_wait, submit_linked_and_wait,
  submit_and_wait_with_timeout,
}
use fiberexec.FiberOps.Linked.{submit_linked_and_wait_lem}
use fiberexec.FiberOps.Timeout.{with_timeout_lem, guarded, timer, timer_of}
use fiberexec.FiberOps.Submission.{holding, sent_after}
use fiberexec.AsyncIo.{FdRef, async_read, async_send_recv}
use fiberexec.AsyncIo.Request.{Request, read, perform}
use fiberexec.AsyncIo.Completion.{perform-completes}
use fiberexec.AsyncIo.Refusal.{perform-ring_full}
use fiberexec.AsyncIo.Pairs.{async_send_recv_lem}
use fiberexec.Run.{fiber_token, body_of}
use fiberexec.SyncWait.{sync_wait}
use fiberexec.SyncWait.Result.{run_sender, sync_wait_run}
use fiberexec.Tests.Fixtures.{kernel, full_kernel, thread, thread-IsReady}

abbrev buffer : Span
buffer = record { ptr = 4096; size = 16 }

abbrev socket : FdRef
socket = record { index = pos 3; fixed = false }

abbrev reading : Request
reading = read socket buffer

abbrev read_entry : Sqe
read_entry = record (prep (Op.read (pos 3) 4096 16 0)) { user_data = 8 }

abbrev one_second : ℤ
one_second = pos 1_000_000_000

perform-completes_example :
    ((perform reading (some one_second) kernel thread).0 ≡ ok (pos 5))
    × ((perform reading (some one_second) kernel thread).1.ring ≡ record {
      sq = [];
      sent = (record read_entry { io_link = true } ∷ timer one_second ∷ []) ∷ [];
    })
perform-completes_example =
    perform-completes reading (some one_second) kernel thread thread-IsReady refl (refl, refl) refl

perform-ring_full_example : (perform reading (some (pos 7)) full_kernel thread).0 ≡ fault
perform-ring_full_example =
    perform-ring_full reading (some (pos 7)) full_kernel thread thread-IsReady refl

async_send_recv_lem_example :
    ((async_send_recv socket buffer buffer (pos 0) (pos 0) kernel thread).0 ≡ ok (pos 5, pos 5))
    × ((async_send_recv socket buffer buffer (pos 0) (pos 0) kernel thread).1.ring
        ≡ sent_after thread.ring (
            record (prep (Op.send (pos 3) 4096 16 (pos 0))) { io_link = true; user_data = 8 }
            ∷ record (prep (Op.recv (pos 3) 4096 16 (pos 0))) { user_data = 16 }
            ∷ []))
async_send_recv_lem_example =
    async_send_recv_lem socket buffer buffer (pos 0) (pos 0) kernel thread thread-IsReady refl refl
      refl refl

abbrev prepared : Sqe
prepared = prep (Op.read (pos 3) 4096 16 0)

submit_linked_and_wait_lem_example :
    ((submit_linked_and_wait
        (some 0 ∷ some 1 ∷ [])
        2
        kernel
        (record thread { ring = record { sq = prepared ∷ prepared ∷ []; sent = [] } })).0
      ≡ ok (pos 5 ∷ pos 5 ∷ []))
    × ((submit_linked_and_wait
          (some 0 ∷ some 1 ∷ [])
          2
          kernel
          (record thread { ring = record { sq = prepared ∷ prepared ∷ []; sent = [] } })).1.ring
        ≡ record {
          sq = [];
          sent =
              (record prepared { io_link = true; user_data = 8 }
                ∷ record prepared { user_data = 16 }
                ∷ [])
              ∷ [];
        })
submit_linked_and_wait_lem_example =
    submit_linked_and_wait_lem (prepared ∷ prepared ∷ []) kernel
      (record thread { ring = record { sq = prepared ∷ prepared ∷ []; sent = [] } }) (omega arith)
      (omega arith) refl refl

with_timeout_lem_example :
    (s ns : ℕ) × (s * 1_000_000_000 + ns ≡ 1_500_000_000)
    × (ns < 1_000_000_000)
    × ((submit_and_wait_with_timeout
          (some 0)
          (pos 1_500_000_000)
          kernel
          (holding thread prepared)).0
        ≡ ok (pos 5))
    × ((submit_and_wait_with_timeout
          (some 0)
          (pos 1_500_000_000)
          kernel
          (holding thread prepared)).1.ring
        ≡ sent_after thread.ring (guarded prepared thread ∷ timer_of s ns ∷ []))
with_timeout_lem_example =
    with_timeout_lem prepared 1_500_000_000 kernel (holding thread prepared) refl refl refl

sync_wait_run_example :
    (sync_wait (run_sender none (body_of (perform reading none)) thread) kernel thread).0
    ≡ ok (some (some (pos 5)))
unfolding async_read install_fiber_stop_token fiber_token get_sqe edit submit dispatch
    submit_and_wait
sync_wait_run_example =
    sync_wait_run none (body_of (perform reading none)) kernel thread thread refl
