-- ===== src/AsyncIo/Runs.antt =====
-- Calls one after another: each is let through, and leaves the thread as the next needs it.
use fiberexec.Base.{ℕ, ◌≡◌, refl, ap, ◌∙◌, ℤ, true, false, [], ◌∷◌, none, String}
use fiberexec.Runtime.Uring.{Kernel, Ring, Span}
use fiberexec.Runtime.Thread.{Thread, ◌>>◌}
use fiberexec.FiberOps.{begin_async_op, dispatch, submit_and_wait}
use fiberexec.FiberOps.Submission.{
  Serves, IsReady, IsOpen, handler_of, clean, of_clean, to_clean, sent_after, submit_one,
  submit_one_runs, resumed, resumed-keeps,
}
use fiberexec.AsyncIo.{
  fd_ref_of_int, async_recv, async_send, async_write, async_openat, async_close,
}
use fiberexec.AsyncIo.Request.{
  Request, recv, send, write, openat, close, perform, entry_of, op_of, is_fixed,
}
use fiberexec.AsyncIo.Untimed.{value_or, void_or, through}

-- A kernel that serves, and nobody stops the fiber.
pub record Lets (k : Kernel) : Type 0 where
  pub serves : Serves k
  pub unstopped : (r : Ring) (h : ℕ) → k.fiber_stops r h ≡ false

module _ {k : Kernel} (o : Lets k) where
  -- What a call comes to, with its result, on a thread that is open again.
  abbrev pub Runs : String → Request → Thread → Type 0
  Runs name q t =
      let r = sent_after t.ring (entry_of q (handler_of t) ∷ []) in
      (t' : Thread) × (perform q none k t ≡ value_or name (k.result r (handler_of t)) k t')
      × IsOpen t'
      × (t'.ring ≡ r)

  call-Runs :
      (name : String) (q : Request) (t : Thread)
      → IsOpen (clean t)
      → perform q none k (clean t) ≡ submit_one (op_of q) (is_fixed q) (value_or name) k (clean t)
      → Runs name q (clean t)
  call-Runs name q t g same =
      let room = o.serves.room (clean t).ring in
      let (ran, ring) =
        submit_one_runs k t room (op_of q) (is_fixed q) (value_or name) (o.serves.takes _) in
      let (on, going) =
        resumed-keeps k t room (op_of q) (is_fixed q) (o.serves.takes _) (o.unstopped _ _)
          g.going in
      (
        resumed k t room (op_of q) (is_fixed q),
        same ∙ ran,
        record {
          on_worker = on ∙ g.on_worker;
          going = going;
          no_entries = ap (λ (r : Ring). r.sq) ring;
        },
        ring,
      )

  ready : {t : Thread} → IsOpen (clean t) → IsReady t
  ready g = record { on_worker = g.on_worker; running = g.going }

  through-Runs :
      (name : String) (q : Request) (t : Thread)
      → IsOpen t
      → perform q none k (clean t)
        ≡ (begin_async_op name >> submit_one (op_of q) (is_fixed q) (value_or name)) k (clean t)
      → Runs name q t
  through-Runs name q t g same =
      let open_clean = to_clean IsOpen t g.no_entries g in
      of_clean (Runs name q) t g.no_entries (
        call-Runs name q t open_clean
          (same ∙ through k t (ready open_clean) (o.serves.room _) name q (value_or name)))

  pub recv-Runs :
      (fd : ℤ) (buf : Span) (flags : ℤ) (t : Thread)
      → IsOpen t
      → Runs "async_recv" (recv (fd_ref_of_int fd) buf flags) t
  unfolding async_recv dispatch submit_and_wait
  recv-Runs fd buf flags t g =
      through-Runs "async_recv" (recv (fd_ref_of_int fd) buf flags) t g refl

  pub send-Runs :
      (fd : ℤ) (buf : Span) (flags : ℤ) (t : Thread)
      → IsOpen t
      → Runs "async_send" (send (fd_ref_of_int fd) buf flags) t
  unfolding async_send dispatch submit_and_wait
  send-Runs fd buf flags t g =
      through-Runs "async_send" (send (fd_ref_of_int fd) buf flags) t g refl

  pub write-Runs :
      (fd : ℤ) (buf : Span) (t : Thread)
      → IsOpen t
      → Runs "async_write" (write (fd_ref_of_int fd) buf) t
  unfolding async_write dispatch submit_and_wait
  write-Runs fd buf t g = through-Runs "async_write" (write (fd_ref_of_int fd) buf) t g refl

  pub openat-Runs :
      (dirfd : ℤ) (path : String) (flags : ℤ) (mode : ℕ) (t : Thread)
      → IsOpen t
      → Runs "async_openat" (openat dirfd path flags mode) t
  unfolding async_openat dispatch submit_and_wait
  openat-Runs dirfd path flags mode t g =
      through-Runs "async_openat" (openat dirfd path flags mode) t g refl

  -- A close, which is let through also where the fiber was stopped.
  abbrev pub CloseRuns : ℤ → Thread → Type 0
  CloseRuns fd t =
      let r = sent_after t.ring (entry_of (close fd) (handler_of t) ∷ []) in
      (t' : Thread) × (async_close fd k t ≡ void_or "async_close" (k.result r (handler_of t)) k t')
      × IsOpen t'
      × (t'.ring ≡ r)

  close_through :
      (fd : ℤ) (t : Thread)
      → (clean t).has_ring ≡ true
      → async_close fd k (clean t)
        ≡ submit_one (op_of (close fd)) false (void_or "async_close") k (clean t)
  unfolding async_close
  close_through fd t on = rw on

  clean-CloseRuns : (fd : ℤ) (t : Thread) → IsOpen (clean t) → CloseRuns fd (clean t)
  clean-CloseRuns fd t g =
      let room = o.serves.room (clean t).ring in
      let (ran, ring) =
        submit_one_runs k t room (op_of (close fd)) false (void_or "async_close")
          (o.serves.takes _) in
      let (on, going) =
        resumed-keeps k t room (op_of (close fd)) false (o.serves.takes _) (o.unstopped _ _)
          g.going in
      (
        resumed k t room (op_of (close fd)) false,
        close_through fd t g.on_worker ∙ ran,
        record {
          on_worker = on ∙ g.on_worker;
          going = going;
          no_entries = ap (λ (r : Ring). r.sq) ring;
        },
        ring,
      )

  pub close-Runs : (fd : ℤ) (t : Thread) → IsOpen t → CloseRuns fd t
  close-Runs fd t g =
      of_clean (CloseRuns fd) t g.no_entries
        (clean-CloseRuns fd t (to_clean IsOpen t g.no_entries g))
