-- ===== src/Tests/Tables.antt =====
-- A channel, a pool of two buffers and a table of two slots.
use fiberexec.Base.{
  ℕ, suc, pos, negsuc, ◌≡◌, ◌≢◌, ◌≤◌, ◌+◌, ◌*◌, ◌⊎◌, refl, true, false, List, [], ◌∷◌, ◌++◌, none,
  some, arith, get_elem?,
}
use fiberexec.Base.Range.{range, count}
use fiberexec.Channel.{success, channel}
use fiberexec.Channel.Fifo.{push_all, pop_all, channel_fifo}
use fiberexec.Channel.FreeList.{IsFreeList}
use fiberexec.Runtime.Uring.{empty_ring}
use fiberexec.Runtime.Thread.{ok}
use fiberexec.FiberOps.Submission.{sent_after}
use fiberexec.FixedBufferPool.{FixedBuffer, Pool, borrow, return_buffer, data_of, release, assign}
use fiberexec.FixedBufferPool.Handles as Handles
use fiberexec.FixedBufferPool.Handles.{owned_once}
use fiberexec.FixedBufferPool.Ownership as Ownership
use fiberexec.FixedBufferPool.Ownership.{construct_lem, borrow_serves, buffers_apart}
use fiberexec.FixedBufferPool.SendZc.{
  SendZcHandler, new_send_zc_handler, complete_all, async_send_zc,
}
use fiberexec.FixedBufferPool.SendZc.Phases.{
  Phases, notified, woken_at_last, async_send_zc_lem, zc_entry,
}
use fiberexec.FixedFdTable.{FdSlot, Table, acquire_fd_slot}
use fiberexec.FixedFdTable.Slots.{IsTable, acquire_installs}
use fiberexec.Tests.Fixtures.{kernel, thread, ListChannel, list_channel, list_channel-IsDocumented}

channel_fifo_example :
    (ch : ListChannel) × (push_all list_channel (4 ∷ 5 ∷ []) (channel list_channel 2)
      ≡ some (success ∷ success ∷ [], ch))
    × (pop_all list_channel 2 ch ≡ some (some 4 ∷ some 5 ∷ []))
channel_fifo_example =
    channel_fifo list_channel-IsDocumented 2 (4 ∷ 5 ∷ []) (omega arith) (omega arith)

abbrev free_two : ListChannel
free_two = record { items = range 2; slots = 4; shut = false }

free_two-IsFreeList : IsFreeList list_channel-IsDocumented 2 free_two []
free_two-IsFreeList = record {
  opened = refl;
  fits = omega arith;
  total = omega arith;
  each = λ id. omega arith;
}

abbrev pool : Pool list_channel
pool = record {
  self = 96;
  has_ring = true;
  buf_size = 16;
  buf_count = 2;
  storage = 32;
  free_list = free_two;
}

abbrev idle : Ownership.System list_channel
idle = record { pool = pool; lent = [] }

idle-IsNew : Ownership.IsNew list_channel-IsDocumented 2 idle
idle-IsNew = record { free = free_two-IsFreeList; none_lent = refl }

abbrev buffer : ℕ → FixedBuffer
buffer i = record { pool = some 96; idx = i }

abbrev holding : List ℕ → Pool list_channel
holding free = record pool { free_list = record { items = free; slots = 4; shut = false } }

abbrev both : List ℕ
both = 1 ∷ 0 ∷ []

both_lent-Reach : Ownership.Reach idle (record { pool = holding []; lent = both })
unfolding borrow
both_lent-Reach =
    Ownership.later
      (Ownership.later Ownership.here (Ownership.borrows (buffer 0) (holding (1 ∷ [])) refl))
      (Ownership.borrows (buffer 1) (holding []) refl)

buffers_apart_example :
    ((data_of 16 (buffer 1)).ptr + (data_of 16 (buffer 1)).size ≤ 2 * 16)
    × (((data_of 16 (buffer 1)).ptr + (data_of 16 (buffer 1)).size ≤ (data_of 16 (buffer 0)).ptr)
        ⊎ ((data_of 16 (buffer 0)).ptr + (data_of 16 (buffer 0)).size
            ≤ (data_of 16 (buffer 1)).ptr))
buffers_apart_example =
    buffers_apart list_channel-IsDocumented 16 (buffer 1) (buffer 0) [] (0 ∷ []) idle-IsNew
      both_lent-Reach refl (omega arith)

two_phases : Phases ((pos 5, 2) ∷ (pos 0, 8) ∷ []) (pos 5)
two_phases = notified (pos 5) 2 (pos 0) 8 refl refl refl

woken_at_last_example :
    ((h : SendZcHandler) × (complete_all ((pos 5, 2) ∷ []) new_send_zc_handler ≡ some h)
      × (h.satisfied ≡ false))
    × (complete_all ((pos 5, 2) ∷ (pos 0, 8) ∷ []) new_send_zc_handler
        ≡ some (record { result = pos 5; satisfied = true }))
woken_at_last_example = woken_at_last ((pos 5, 2) ∷ (pos 0, 8) ∷ []) (pos 5) two_phases

async_send_zc_lem_example :
    ((async_send_zc 16 (pos 3) (buffer 1) 5 (pos 0) kernel thread).0 ≡ ok (some (pos 5)))
    × ((async_send_zc 16 (pos 3) (buffer 1) 5 (pos 0) kernel thread).1.ring
        ≡ sent_after thread.ring (zc_entry 16 (pos 3) (buffer 1) 5 (pos 0) 8 ∷ []))
async_send_zc_lem_example =
    async_send_zc_lem 16 (pos 3) (buffer 1) 5 (pos 0) kernel thread (pos 5) refl refl refl refl
      two_phases

abbrev table : Table list_channel
table = record { self = 128; capacity = 2; free_list = free_two; files = negsuc 0 ∷ negsuc 0 ∷ [] }

below_two :
    (i : ℕ) → 1 ≤ count i (range 2) → get_elem? (negsuc 0 ∷ negsuc 0 ∷ []) i ≡ some (negsuc 0)
below_two ℕ.zero h = refl
below_two (suc ℕ.zero) h = refl
below_two (suc (suc i)) h = absurd (ground arith)

table-IsTable : IsTable list_channel-IsDocumented 2 table []
table-IsTable = record { free = free_two-IsFreeList; size = refl; empty = below_two }

acquire_installs_example :
    (s : FdSlot) × (tbl : Table list_channel) × (acquire_fd_slot list_channel kernel empty_ring
        (pos 7)
        (some table)
      ≡ some (ok s, some tbl))
    × (s.table ≡ some 128)
    × (count s.slot [] ≡ 0)
    × IsTable list_channel-IsDocumented 2 tbl (s.slot ∷ [])
    × (get_elem? tbl.files s.slot ≡ some (pos 7))
    × ((j : ℕ) → j ≢ s.slot → get_elem? tbl.files j ≡ get_elem? table.files j)
acquire_installs_example =
    acquire_installs list_channel-IsDocumented kernel empty_ring (pos 7) table-IsTable (omega arith)
      (λ i. refl)

-- The descriptor 7 in slot 0.
abbrev used : Table list_channel
used = record table {
  free_list = record { items = 1 ∷ []; slots = 4; shut = false };
  files = pos 7 ∷ negsuc 0 ∷ [];
}

empty_one : (i : ℕ) → 1 ≤ count i (1 ∷ []) → get_elem? (pos 7 ∷ negsuc 0 ∷ []) i ≡ some (negsuc 0)
empty_one ℕ.zero h = absurd (ground arith)
empty_one (suc ℕ.zero) h = refl
empty_one (suc (suc i)) h = absurd (ground arith)

used-IsTable : IsTable list_channel-IsDocumented 2 used (0 ∷ [])
used-IsTable = record {
  free = record {
    opened = refl;
    fits = omega arith;
    total = omega arith;
    each = λ id. omega arith;
  };
  size = refl;
  empty = empty_one;
}

abbrev slot_zero : FdSlot
slot_zero = record { table = some 128; slot = 0 }

abbrev unheld : Handles.System list_channel
unheld = record { pool = pool; handles = [] }

-- Both buffers were borrowed, and the handle of buffer 1 was assigned from that of buffer 0.
abbrev assigned : Handles.System list_channel
assigned = record {
  pool = holding (1 ∷ []);
  handles = buffer 0 ∷ record { pool = none; idx = 0 } ∷ [];
}

assigned-Reach : Handles.Reach unheld assigned
unfolding borrow assign return_buffer
assigned-Reach =
    Handles.later
      (Handles.later
        (Handles.later Handles.here (Handles.borrows (buffer 0) (holding (1 ∷ [])) refl))
        (Handles.borrows (buffer 1) (holding []) refl))
      (Handles.assigns_from_later [] [] [] (buffer 1) (buffer 0) (holding (1 ∷ [])) refl refl)

owned_once_example :
    ((id : ℕ) → count id (1 ∷ []) + count id (0 ∷ []) ≡ count id (range 2))
    × ((xs ys : List FixedBuffer) (h : FixedBuffer)
        → assigned.handles ≡ xs ++ h ∷ ys
        → (p : Pool list_channel) × (Handles.give_back (release h) assigned.pool ≡ some p))
    × ((xs ys zs : List FixedBuffer) (this other : FixedBuffer)
        → (assigned.handles ≡ xs ++ this ∷ (ys ++ other ∷ zs))
          ⊎ (assigned.handles ≡ xs ++ other ∷ (ys ++ this ∷ zs))
        → (p : Pool list_channel) × (Handles.give_back (assign false this other).0 assigned.pool
            ≡ some p))
unfolding release
owned_once_example =
    owned_once list_channel-IsDocumented (record { free = free_two-IsFreeList; no_handles = refl })
      assigned-Reach
