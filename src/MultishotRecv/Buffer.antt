-- ===== src/MultishotRecv/Buffer.antt =====
-- A received message, and the handle that gives its buffer back: `received_buffer`.
use fiberexec.Base.{ℕ, ◌*◌, Bool, true, false, Option, none, some, List, [], ◌∷◌}
use fiberexec.Runtime.Uring.{Span}

-- `pending_item`.
pub record Item : Type 0 where
  pub buf_id : ℕ
  pub size : ℕ

-- `owner` is the address of the receiver, none once the handle was moved from.
pub record ReceivedBuffer : Type 0 where
  pub owner : Option ℕ
  pub buf_id : ℕ
  pub size : ℕ

-- The new handle and what is left of the old one.
unfoldable pub move : ReceivedBuffer → ReceivedBuffer × ReceivedBuffer
move other = (other, record other { owner = none })

-- The buffers that a destructor gives back.
unfoldable pub release : ReceivedBuffer → List ℕ
release b = elim b.owner [ none ↦ [] | some owner ↦ b.buf_id ∷ [] ]

-- Assignment from another handle: what it gives back, this handle, and what is left of the other.
-- `same` is `this == &other`, where nothing happens.
unfoldable pub assign :
    (same : Bool) → ReceivedBuffer → ReceivedBuffer → List ℕ × ReceivedBuffer × ReceivedBuffer
unfolding release
assign true this other = ([], this, other)
assign false this other = (release this, other, record other { owner = none })

-- The bytes of a handle, `buf_size` to a buffer, as a place in the storage and a length.
unfoldable pub data_of : (buf_size : ℕ) → ReceivedBuffer → Span
data_of buf_size b = record { ptr = b.buf_id * buf_size; size = b.size }
