-- ===== src/FiberOps.antt =====
-- include/fiberexec/detail/fiber_ops.hpp, include/fiberexec/detail/async_helpers.hpp and the I/O
-- helpers of src/fiber_context.cpp: stop tokens, and the submission of entries by a fiber that then
-- waits for their completions.
pub mod Stops
pub mod Submission
pub mod Linked
pub mod Timeout
use Prim.Native.String.{◌++◌ as str_append}
use fiberexec.Base.{
  ℕ, ℤ, is_neg, neg, div_ℤ, mod_ℤ, Bool, true, false, ◌||◌, not, List, [], ◌∷◌, ◌++◌, Option, none,
  some, String, length, ltb, ◌==◌, if◌then◌else◌, suc,
}
use fiberexec.Runtime.Abi.{ecanceled}
use fiberexec.Runtime.Uring.{Op, Sqe, Timespec, prep, set_data}
use fiberexec.Runtime.Thread.{
  system_error, runtime_error, invalid_argument, ok, M, ◌>>=◌, ◌>>◌, pure, throw, when, get_sqe,
  write_sqe, submit, new_handler, get_result,
}

-- The user data of entries that have no handler.
abbrev pub k_work_tag : ℕ
k_work_tag = 0

abbrev pub k_notify_tag : ℕ
k_notify_tag = 1

abbrev pub k_cancel_tag : ℕ
k_cancel_tag = 2

abbrev pub k_max_linked_ops : ℕ
k_max_linked_ops = 8

-- A stop token: none if no stop is possible, else whether a stop was requested.
abbrev pub StopToken : Type 0
StopToken = Option Bool

abbrev pub stop_possible : StopToken → Bool
stop_possible none = false
stop_possible (some requested) = true

abbrev pub stop_requested : StopToken → Bool
stop_requested none = false
stop_requested (some requested) = requested

unfoldable pub install_fiber_stop_token : StopToken → M (Unit {0})
install_fiber_stop_token tok k t =
    if not (stop_possible tok) then (ok tt, t) else (ok tt, record t { fiber_stop = tok })

unfoldable pub current_fiber_stop_token : M StopToken
current_fiber_stop_token k t = (ok t.fiber_stop, t)

-- The thread's ring is `Thread.ring`; a null `tl_ring` is `has_ring ≡ false`.
unfoldable pub current_ring : M Bool
current_ring k t = (ok t.has_ring, t)

-- Queues the cancellation and writes to the notify eventfd of the owning thread.
unfoldable pub request_cancel : ℕ → M (Unit {0})
request_cancel user_data k t = (
  ok tt,
  record t { cancel_queue = t.cancel_queue ++ (user_data ∷ []); notified = suc t.notified },
)

unfoldable pub request_cancels : List ℕ → M (Unit {0})
request_cancels [] = pure tt
request_cancels (p ∷ ps) = request_cancel p >> request_cancels ps

-- A token after a wait in which a stop may have come.
abbrev pub stop_during : Bool → StopToken → StopToken
stop_during b none = none
stop_during b (some requested) = some (requested || b)

-- The stop callbacks that live while the fiber waits: one on the pool's token, and one on the fiber's
-- if that can stop. A callback runs at once if its token is stopped already, else when it stops.
unfoldable pub watch_stops : List ℕ → ℕ → M (Unit {0})
unfolding request_cancels
watch_stops targets handler = do
  pool ← λ k t.
      let stopped = t.pool_stop || k.pool_stops t.ring handler in
      (ok stopped, record t { pool_stop = stopped })
  when pool (request_cancels targets)
  fiber ← λ k t.
      let tok = stop_during (k.fiber_stops t.ring handler) t.fiber_stop in
      (ok tok, record t { fiber_stop = tok })
  when (stop_requested fiber) (request_cancels targets)

unfoldable pub submit_and_wait : Option ℕ → M ℤ
unfolding watch_stops
submit_and_wait sqe = do
  awaitable ← new_handler
  write_sqe sqe (set_data awaitable)
  ret ← submit
  when (is_neg ret) (throw (system_error (neg ret) "io_uring_submit"))
  watch_stops (awaitable ∷ []) awaitable
  get_result awaitable

-- A number of nanoseconds as seconds and a rest.
unfoldable pub timespec_of : ℤ → Timespec
timespec_of count = record {
  tv_sec = div_ℤ count 1_000_000_000;
  tv_nsec = mod_ℤ count 1_000_000_000;
}

abbrev pub set_link : Sqe → Sqe
set_link e = record e { io_link = true }

-- `sqe == nullptr`
abbrev pub is_null : Option ℕ → Bool
is_null none = true
is_null (some i) = false

unfoldable pub submit_and_wait_with_timeout : Option ℕ → ℤ → M ℤ
unfolding timespec_of
submit_and_wait_with_timeout sqe timeout = do
  write_sqe sqe set_link
  awaitable ← new_handler
  write_sqe sqe (set_data awaitable)
  tsqe ← get_sqe
  when (is_null tsqe) (throw (runtime_error "submit_and_wait_with_timeout: io_uring ring full"))
  write_sqe tsqe (λ e. prep (Op.link_timeout (timespec_of timeout) 0))
  write_sqe tsqe (set_data k_cancel_tag)
  ret ← submit
  when (is_neg ret) (throw (system_error (neg ret) "io_uring_submit"))
  watch_stops (awaitable ∷ []) awaitable
  get_result awaitable

abbrev pub set_fixed_file : Sqe → Sqe
set_fixed_file e = record e { fixed_file = true }

-- One handler for each entry, in order.
unfoldable pub wire : List (Option ℕ) → M (List ℕ)
wire [] = pure []
wire (sqe ∷ sqes) = do
  aw ← new_handler
  write_sqe sqe (set_data aw)
  aws ← wire sqes
  pure (aw ∷ aws)

-- IOSQE_IO_LINK on every entry except the last.
unfoldable pub link_all : List (Option ℕ) → M (Unit {0})
link_all [] = pure tt
link_all (sqe ∷ []) = pure tt
link_all (sqe ∷ next ∷ sqes) = write_sqe sqe set_link >> link_all (next ∷ sqes)

unfoldable pub wait_all : List ℕ → M (List ℤ)
wait_all [] = pure []
wait_all (aw ∷ aws) = do res ← get_result aw; rest ← wait_all aws; pure (res ∷ rest)

-- The results are `out`, whose length the caller chose.
unfoldable pub submit_linked_and_wait : List (Option ℕ) → ℕ → M (List ℤ)
unfolding wire link_all watch_stops wait_all
submit_linked_and_wait sqes out_size = do
  let n = length sqes
  when (n == 0 || ltb k_max_linked_ops n || not (n == out_size)) (
      throw
        (invalid_argument "submit_linked_and_wait: chain length must be in [1, k_max_linked_ops]"))
  aws ← wire sqes
  link_all sqes
  ret ← submit
  when (is_neg ret) (throw (system_error (neg ret) "io_uring_submit (linked chain)"))
  watch_stops aws (first aws)
  wait_all aws
  where
    first : List ℕ → ℕ
    first [] = 0
    first (aw ∷ aws) = aw

unfoldable pub submit_cancel : ℕ → M (Unit {0})
submit_cancel handler k t = if not t.has_ring then (ok tt, t) else send k t
  where
    enter : Option ℕ → M (Unit {0})
    enter none = pure tt
    enter (some i) = do
      write_sqe (some i) (λ e. prep (Op.cancel handler 0))
      write_sqe (some i) (set_data k_cancel_tag)
      ret ← submit
      pure tt

    send : M (Unit {0})
    send = get_sqe >>= enter

-- Fails outside a worker, and if the fiber's operation was stopped already.
unfoldable pub begin_async_op : String → M (Unit {0})
unfolding current_ring current_fiber_stop_token
begin_async_op caller = do
  ring ← current_ring
  when (not ring) (throw (runtime_error (str_append caller " called outside of a fiberexec fiber")))
  st ← current_fiber_stop_token
  when (stop_requested st) (throw (system_error (ℤ.pos ecanceled) caller))

unfoldable pub dispatch : Option ℕ → Option ℤ → M ℤ
dispatch sqe none = submit_and_wait sqe
dispatch sqe (some timeout) = submit_and_wait_with_timeout sqe timeout
