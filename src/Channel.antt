-- ===== src/Channel.antt =====
-- include/fiberexec/channel.hpp: the bounded channel of fibers, a wrapper of Boost's.
pub mod Boost
pub mod Fifo
pub mod FreeList
use fiberexec.Base.{ℕ, ◌+◌, Bool, Option, none, some, bit_ceil}
use Boost.{BoostStatus, BoostChannel}

pub data ChannelOpStatus : Type 0 where
  success empty full closed timeout : ChannelOpStatus

unfoldable pub cvt : BoostStatus → ChannelOpStatus
cvt BoostStatus.success = ChannelOpStatus.success
cvt BoostStatus.empty = ChannelOpStatus.empty
cvt BoostStatus.full = ChannelOpStatus.full
cvt BoostStatus.closed = ChannelOpStatus.closed
cvt BoostStatus.timeout = ChannelOpStatus.timeout

module _ {A : Type 0} (C : BoostChannel A) where
  unfoldable pub channel : ℕ → C.Chan
  channel capacity = C.make (bit_ceil (capacity + 1))

  -- None where the calling fiber suspends.
  unfoldable pub push : A → C.Chan → Option (ChannelOpStatus × C.Chan)
  unfolding cvt
  push v ch = elim (C.push v ch) [ none ↦ none | some (s, ch') ↦ some (cvt s, ch') ]

  unfoldable pub try_push : A → C.Chan → ChannelOpStatus × C.Chan
  unfolding cvt
  try_push v ch = let (s, ch') = C.try_push v ch in (cvt s, ch')

  -- With the value that the call writes, where it writes one.
  unfoldable pub pop : C.Chan → Option (ChannelOpStatus × Option A × C.Chan)
  unfolding cvt
  pop ch = elim (C.pop ch) [ none ↦ none | some (s, v, ch') ↦ some (cvt s, v, ch') ]

  -- No value where the call throws.
  unfoldable pub value_pop : C.Chan → Option (Option A × C.Chan)
  value_pop ch = C.value_pop ch

  unfoldable pub try_pop : C.Chan → ChannelOpStatus × Option A × C.Chan
  unfolding cvt
  try_pop ch = let (s, v, ch') = C.try_pop ch in (cvt s, v, ch')

  unfoldable pub close : C.Chan → C.Chan
  close ch = C.close ch

  unfoldable pub is_closed : C.Chan → Bool
  is_closed ch = C.is_closed ch
