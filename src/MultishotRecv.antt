-- ===== src/MultishotRecv.antt =====
-- src/multishot_recv.cpp and include/fiberexec/multishot_recv.hpp. One receive entry stays armed, and
-- the kernel picks a buffer of the object's ring for each message. `complete` runs for each
-- completion, `next` is called by one fiber, in two parts where it suspends.
pub mod Buffer
pub mod System
pub mod Order
pub mod Buffers
pub mod Armed
pub mod Constructed
pub mod Destruction
use fiberexec.Base.{
  ℕ, zero, suc, ◌+◌, ◌*◌, ◌%◌, ◌^◌, ℤ, pos, is_neg, is_positive, neg, minus, to_ℕ, eq_ℤ, Bool, true,
  false, not, ◌&&◌, ◌||◌, List, [], ◌∷◌, ◌++◌, map, Option, none, some, if◌then◌else◌, ◌==◌,
  bit_ceil, is_empty,
}
use fiberexec.Base.Range.{range}
use fiberexec.Runtime.Abi.{ecanceled, einval, enodata, has_more, has_buffer, buffer_of}
use fiberexec.Runtime.Uring.{
  Op, Sqe, Ring, Kernel, prep, set_data, get_sqe as ring_get_sqe, edit, submit as ring_submit,
}
use fiberexec.Runtime.Thread.{
  Error, system_error, runtime_error, invalid_argument, Outcome, ok, err, M, ◌>>=◌, ◌>>◌, pure,
  throw, when, get_sqe, write_sqe, submit, Thread,
}
use fiberexec.FiberOps.{
  StopToken, stop_requested, current_ring, is_null, submit_cancel, current_fiber_stop_token,
}
use Buffer.{Item}

-- `buf_ring` is whether the pointer is set, and `ring_bufs` the buffers that the kernel may pick, in
-- the order in which they were added. `woken` is the shared state of the promise that the suspended
-- fiber waits on. `storage` is the size of the storage in bytes.
pub record Recv : Type 0 where
  pub self : ℕ
  pub fd : ℤ
  pub bgid : ℕ
  pub buf_size : ℕ
  pub buf_count : ℕ
  pub storage : ℕ
  pub buf_ring : Bool
  pub ring_bufs : List ℕ
  pub pending : List Item
  pub waiter : Bool
  pub woken : Bool
  pub error : ℤ

abbrev set_buffer_select : ℕ → Sqe → Sqe
set_buffer_select group e = record e { buffer_select = true; buf_group = group }

-- The thread's buffer group after one that was taken, a uint16_t.
unfoldable pub next_group : ℕ → ℕ
next_group bgid = (bgid + 1) % 2 ^ 16

-- The groups that are left once one was freed.
abbrev pub without : ℕ → List ℕ → List ℕ
without group [] = []
without group (g ∷ gs) = let rest = without group gs in if group == g then rest else g ∷ rest

setup_buf_ring : (count bgid : ℕ) → M ℤ
setup_buf_ring count bgid k t = (
  ok (k.setup_buf_ring t.ring (count % 2 ^ 32) bgid),
  if is_neg (k.setup_buf_ring t.ring (count % 2 ^ 32) bgid)
      then t
      else record t { buf_groups = bgid ∷ t.buf_groups },
)

pub free_buf_ring : (bgid : ℕ) → M (Unit {0})
free_buf_ring bgid k t = (ok tt, record t { buf_groups = without bgid t.buf_groups })

-- With the buffer group that it takes, also where it throws.
unfoldable pub construct : ℕ → ℕ → ℤ → ℕ → ℕ → M Recv
unfolding current_ring setup_buf_ring free_buf_ring
construct bgid self fd buf_size buf_count = do
  let count = bit_ceil buf_count
  when (buf_size == 0 || buf_count == 0)
      (throw (invalid_argument "multishot_recv: buf_size and buf_count must be non-zero"))
  ring ← current_ring
  when (not ring) (throw (runtime_error "multishot_recv constructed outside of a fiberexec fiber"))
  ret ← setup_buf_ring count bgid
  when (is_neg ret) (throw (system_error (neg ret) "io_uring_setup_buf_ring"))
  sqe ← get_sqe
  when (is_null sqe)
      (free_buf_ring bgid >> throw (runtime_error "multishot_recv: io_uring ring full"))
  write_sqe sqe (λ e. prep (Op.recv_multishot fd 0 0 0))
  write_sqe sqe (set_buffer_select bgid)
  write_sqe sqe (set_data self)
  sent ← submit
  when (is_neg sent)
      (free_buf_ring bgid >> throw (system_error (neg sent) "io_uring_submit (multishot_recv)"))
  pure (record {
    self = self;
    fd = fd;
    bgid = bgid;
    buf_size = buf_size;
    buf_count = count;
    storage = buf_size * count;
    buf_ring = true;
    ring_bufs = map (λ i. i % 2 ^ 16) (range count);
    pending = [];
    waiter = false;
    woken = false;
    error = pos 0;
  })

-- The entry is prepared and submitted again, unless the ring has no vacant one.
unfoldable pub arm : Kernel → Recv → Ring → Ring
arm k a r = let (p, r') = ring_get_sqe k r in go p r'
  where
    go : Option ℕ → Ring → Ring
    go none r' = r'
    go (some i) r' =
        (ring_submit k (
          edit i (set_data a.self) (
            edit i (set_buffer_select a.bgid)
              (edit i (λ e. prep (Op.recv_multishot a.fd 0 0 0)) r')))).1

unfoldable pub return_buffer : ℕ → Recv → Recv
return_buffer buf_id a = record a { ring_bufs = a.ring_bufs ++ (buf_id ∷ []) }

pub store : ℤ → ℕ → Recv → Recv
unfolding return_buffer
store res flags a =
    if is_positive res
    then record a {
      pending = a.pending ++ (record { buf_id = buffer_of flags; size = to_ℕ res } ∷ []);
    }
    else (let a' = if has_buffer flags then return_buffer (buffer_of flags) a else a in
        record a' { error = if eq_ℤ res (pos 0) then minus enodata else res })

wake : Recv → Recv
wake a = if a.waiter then record a { waiter = false; woken = true } else a

unfoldable pub complete : Kernel → ℤ → ℕ → Recv → Ring → Recv × Ring
unfolding store wake arm
complete k res flags a r =
    (wake (store res flags a), if not (has_more flags) && is_positive res then arm k a r else r)

-- What a call of `next` does at once.
pub data Start : Type 0 where
  returned : Option Item → Start
  thrown : Error → Start
  suspended : Start

-- End of stream, ECANCELED and EINVAL end the stream quietly.
abbrev pub ends : ℤ → Bool
ends error = eq_ℤ error (minus enodata) || eq_ℤ error (minus ecanceled) || eq_ℤ error (minus einval)

next_empty : StopToken → Recv → Start × Recv
next_empty st a =
    if not (eq_ℤ a.error (pos 0))
    then (if ends a.error
        then (returned none, a)
        else (thrown (system_error (neg a.error) "multishot_recv::next"), a))
    else (if stop_requested st
        then (returned none, record a { error = minus ecanceled })
        else (suspended, record a { waiter = true; woken = false }))

unfoldable pub next_start : StopToken → Recv → Start × Recv
unfolding next_empty
next_start st a = elim a.pending [
  | [] ↦ next_empty st a
  | item ∷ items ↦ (returned (some item), record a { pending = items })
]

unfoldable pub next_resume : Recv → Outcome (Option Item) × Recv
next_resume a = elim a.pending [
  | [] ↦
      (if ends a.error then ok none else err (system_error (neg a.error) "multishot_recv::next"), a)
  | item ∷ items ↦ (ok (some item), record a { pending = items })
]

pub data End : Type 0 where
  finished hanging : End

-- Buffers that were received and not consumed go back.
pub return_all : List Item → Recv → Recv
unfolding return_buffer
return_all [] a = record a { pending = [] }
return_all (item ∷ items) a = return_all items (return_buffer item.buf_id a)

pub complete_all : Kernel → List (ℤ × ℕ) → Recv → Ring → Recv × Ring
complete_all k [] a r = (a, r)
complete_all k ((res, flags) ∷ cs) a r =
    let (a', r') = complete k res flags a r in complete_all k cs a' r'

-- One round of `while (next()) { }`, `rest` being the rounds after it: the handle that `next` returned
-- gives its buffer back at once. With no batch of completions left the wait does not end.
pub drain_round :
    (List (List (ℤ × ℕ)) → Recv → M (End × Recv))
    → List (List (ℤ × ℕ))
    → Start × Recv
    → M (End × Recv)
unfolding complete_all next_resume return_buffer
drain_round rest bs (returned none, a) = pure (finished, a)
drain_round rest bs (returned (some item), a) = rest bs (return_buffer item.buf_id a)
drain_round rest bs (thrown e, a) = pure (finished, a)
drain_round rest [] (suspended, a) = pure (hanging, a)
drain_round rest (b ∷ bs) (suspended, a) =
    λ k t. let (a', r) = complete_all k b a t.ring in wake_up a'.woken a' k (record t { ring = r })
  where
    got : Outcome (Option Item) × Recv → M (End × Recv)
    got (ok (some item), a') = rest bs (return_buffer item.buf_id a')
    got (o, a') = pure (finished, a')

    wake_up : Bool → Recv → M (End × Recv)
    wake_up false a' = rest bs a'
    wake_up true a' = got (next_resume a')

pub drain : ℕ → List (List (ℤ × ℕ)) → Recv → M (End × Recv)
unfolding drain_round current_fiber_stop_token
drain zero bs a = pure (hanging, a)
drain (suc n) bs a = do st ← current_fiber_stop_token; drain_round (drain n) bs (next_start st a)

-- The last part of the destructor: `io_uring_free_buf_ring`, where the thread has a ring.
pub free_ring : End × Recv → M (End × Recv)
unfolding free_buf_ring
free_ring (hanging, a) = pure (hanging, a)
free_ring (finished, a) =
    if a.buf_ring
    then (λ k t.
        (when t.has_ring (free_buf_ring a.bgid)
            >> pure (
              finished,
              record a { buf_ring = false; ring_bufs = if t.has_ring then [] else a.ring_bufs },
            ))
          k t)
    else pure (finished, a)

-- The destructor, which catches every exception of its first part. `deliver` are the batches of
-- completions that the kernel has for the object from then on, by what was submitted to it.
unfoldable pub destroy : ℕ → (Ring → List (List (ℤ × ℕ))) → Recv → M (End × Recv)
unfolding return_all drain free_ring
destroy fuel deliver a = do
  let a' = return_all a.pending a
  left ←
      if eq_ℤ a.error (pos 0)
      then (submit_cancel a.self >> (λ k t. drain fuel (deliver t.ring) a' k t))
      else (pure (finished, a'))
  free_ring left
