-- ===== src/FixedBufferPool.antt =====
-- src/fixed_buffer_pool.cpp and include/fiberexec/fixed_buffer_pool.hpp: buffers that are registered
-- with the ring, the handles that own one each, and the zero-copy send from one.
pub mod SendZc
pub mod Ownership
pub mod Handles
use fiberexec.Base.{
  ℕ, ◌*◌, ◌%◌, ◌^◌, ℤ, pos, is_neg, neg, Bool, true, false, not, ◌&&◌, ◌||◌, List, [], ◌∷◌, Option,
  none, some, if◌then◌else◌, ◌==◌, bit_ceil, max, String,
}
use fiberexec.Base.Range.{range}
use fiberexec.Channel.Boost.{BoostChannel}
use fiberexec.Channel.{ChannelOpStatus, success, channel, push, pop, close}
use fiberexec.Channel.FreeList.{fill}
use fiberexec.Runtime.Uring.{Span}
use fiberexec.Runtime.Thread.{
  Outcome, ok, err, system_error, runtime_error, invalid_argument, M, ◌>>=◌, ◌>>◌, pure, throw,
  when,
}
use fiberexec.FiberOps.{current_ring}

-- `fixed_buffer`: the address of the pool, none once the handle was moved from, and the index.
pub record FixedBuffer : Type 0 where
  pub pool : Option ℕ
  pub idx : ℕ

-- The new handle and what is left of the old one.
unfoldable pub move : FixedBuffer → FixedBuffer × FixedBuffer
move other = (other, record other { pool = none })

-- The indices that a destructor gives back.
unfoldable pub release : FixedBuffer → List ℕ
release b = elim b.pool [ none ↦ [] | some pool ↦ b.idx ∷ [] ]

-- Assignment from another handle: what it gives back, this handle, and what is left of the other.
-- `same` is `this == &other`, where nothing happens.
unfoldable pub assign :
    (same : Bool) → FixedBuffer → FixedBuffer → List ℕ × FixedBuffer × FixedBuffer
unfolding release
assign true this other = ([], this, other)
assign false this other = (release this, other, record other { pool = none })

-- The whole slot, as a place in the storage and a length.
unfoldable pub data_of : (buf_size : ℕ) → FixedBuffer → Span
data_of buf_size b = record { ptr = b.idx * buf_size; size = buf_size }

module _ (C : BoostChannel ℕ) where
  pub record Pool : Type 0 where
    pub self : ℕ
    pub has_ring : Bool
    pub buf_size : ℕ
    pub buf_count : ℕ
    pub storage : ℕ
    pub free_list : C.Chan

  -- None if one of the pushes that fill the free list suspends.
  unfoldable pub construct : ℕ → ℕ → ℕ → M (Option (Pool))
  unfolding current_ring fill channel
  construct self buf_size buf_count = do
    ring ← current_ring
    let count = max (bit_ceil buf_count) 2
    when (buf_size == 0 || count == 0)
        (throw (invalid_argument "fixed_buffer_pool: buf_size and buf_count must be non-zero"))
    when (not ring)
        (throw (runtime_error "fixed_buffer_pool constructed outside of a fiberexec worker thread"))
    ret ← λ k t. (ok (k.register_buffers t.ring (count % 2 ^ 32)), t)
    when (is_neg ret) (throw (system_error (neg ret) "io_uring_register_buffers"))
    pure (elim (fill C (range (count % 2 ^ 16)) (channel C count)) [
      | none ↦ none
      | some ch ↦ some (record {
        self = self;
        has_ring = ring;
        buf_size = buf_size;
        buf_count = count;
        storage = buf_size * count;
        free_list = ch;
      })
    ])

  -- None where the fiber suspends.
  unfoldable pub borrow : Pool → Option (Outcome FixedBuffer × Pool)
  unfolding pop
  borrow p = elim (pop C p.free_list) [
    | none ↦ none
    | some (status, v, ch) ↦ some (got status v, record p { free_list = ch })
  ]
    where
      idx_of : Option ℕ → ℕ
      idx_of none = 0
      idx_of (some idx) = idx

      got : ChannelOpStatus → Option ℕ → Outcome FixedBuffer
      got success v = ok (record { pool = some p.self; idx = idx_of v })
      got _ v = err (runtime_error "fixed_buffer_pool: pool closed")

  -- None where the fiber suspends.
  unfoldable pub return_buffer : ℕ → Pool → Option Pool
  unfolding push
  return_buffer idx p = elim (push C idx p.free_list) [
    | none ↦ none
    | some (_, ch) ↦ some (record p { free_list = ch })
  ]

  -- The destructor.
  unfoldable pub destroy : Pool → Pool
  unfolding close
  destroy p = record p { free_list = close C p.free_list }

  -- On the calling thread's pool, if it has one; the pool is returned with it.
  unfoldable pub borrow_fixed_buffer : Option Pool → Option (Outcome FixedBuffer × Option Pool)
  unfolding borrow
  borrow_fixed_buffer none = some (
    err (
        runtime_error
          "borrow_fixed_buffer called without fixed_buffer_size/fixed_buffer_count configured in context_options"),
    none,
  )
  borrow_fixed_buffer (some pool) = elim (borrow pool) [
    | none ↦ none
    | some (o, pool') ↦ some (o, some pool')
  ]
