-- ===== src/FixedFdTable.antt =====
-- src/fixed_fd_table.cpp and include/fiberexec/fixed_fd_table.hpp: descriptors that are registered with
-- the ring, and the handles that own one slot each.
pub mod Slots
pub mod Refusal
use fiberexec.Base.{
  ℕ, ◌%◌, ◌^◌, ◌==◌, ℤ, pos, negsuc, is_neg, neg, Bool, true, false, not, List, [], ◌∷◌, Option,
  none, some, if◌then◌else◌, map, set, String,
}
use fiberexec.Base.Range.{range}
use fiberexec.Channel.Boost.{BoostChannel}
use fiberexec.Channel.{ChannelOpStatus, success, channel, push, pop, close as close_channel}
use fiberexec.Channel.FreeList.{try_fill}
use fiberexec.Runtime.Uring.{Kernel, Ring}
use fiberexec.Runtime.Thread.{
  Error, Outcome, ok, err, fault, system_error, runtime_error, invalid_argument, M, ◌>>=◌, ◌>>◌,
  pure, throw, when,
}
use fiberexec.FiberOps.{current_ring}
use fiberexec.AsyncIo.{FixedFd, FdRef, fd_ref_of_fixed}

-- `fd_slot`: the address of the table, none once the handle was moved from, and the slot.
pub record FdSlot : Type 0 where
  pub table : Option ℕ
  pub slot : ℕ

-- The new handle and what is left of the old one.
unfoldable pub move : FdSlot → FdSlot × FdSlot
move other = (other, record other { table = none })

unfoldable pub to_fixed_fd : FdSlot → FixedFd
to_fixed_fd s = record { index = pos s.slot }

unfoldable pub to_fd_ref : FdSlot → FdRef
unfolding to_fixed_fd
to_fd_ref s = fd_ref_of_fixed (to_fixed_fd s)

-- What a noexcept function does: `terminated` if an exception leaves it.
pub data Noexcept (A : Type 0) : Type 0 where
  done : A → Noexcept A
  terminated : Noexcept A

module _ (C : BoostChannel ℕ) where
  -- `files` is what the kernel has registered, -1 in a slot that is empty.
  pub record Table : Type 0 where
    pub self : ℕ
    pub capacity : ℕ
    pub free_list : C.Chan
    pub files : List ℤ

  unfoldable pub construct : ℕ → ℕ → M Table
  unfolding current_ring channel try_fill
  construct self capacity = do
    ring ← current_ring
    when (not ring)
        (throw (runtime_error "fixed_fd_table constructed outside of a fiberexec worker thread"))
    when (capacity == 0) (throw (invalid_argument "fixed_fd_table: capacity must be non-zero"))
    ret ← λ k t. (ok (k.register_files t.ring (capacity % 2 ^ 32)), t)
    when (is_neg ret) (throw (system_error (neg ret) "io_uring_register_files"))
    pure (record {
      self = self;
      capacity = capacity;
      free_list = try_fill C (range (capacity % 2 ^ 32)) (channel C capacity);
      files = map (λ _. negsuc 0) (range (capacity % 2 ^ 32));
    })

  unfoldable pub destroy : Table → Table
  unfolding close_channel
  destroy tbl = record tbl { free_list = close_channel C tbl.free_list; files = [] }

  unfoldable pub update : Kernel → Ring → ℕ → ℤ → Table → Outcome (Unit {0}) × Table
  update k r slot fd tbl =
      if is_neg (k.update_file r slot fd)
      then (
        err (system_error (neg (k.update_file r slot fd)) "io_uring_register_files_update"),
        tbl,
      )
      else (ok tt, record tbl { files = set tbl.files slot fd })

  unfoldable pub index : Table → ℕ → FixedFd
  index tbl slot = record { index = pos slot }

  -- None where the fiber suspends.
  unfoldable pub borrow_slot : Table → Option (Outcome ℕ × Table)
  unfolding pop
  borrow_slot tbl = elim (pop C tbl.free_list) [
    | none ↦ none
    | some (status, v, ch) ↦ some (got status v, record tbl { free_list = ch })
  ]
    where
      slot_of : Option ℕ → ℕ
      slot_of none = 0
      slot_of (some slot) = slot

      got : ChannelOpStatus → Option ℕ → Outcome ℕ
      got success v = ok (slot_of v)
      got _ v = err (runtime_error "fixed_fd_table: table closed")

  -- None where the fiber suspends.
  unfoldable pub release_slot : ℕ → Table → Option Table
  unfolding push
  release_slot slot tbl = elim (push C slot tbl.free_list) [
    | none ↦ none
    | some (_, ch) ↦ some (record tbl { free_list = ch })
  ]

  -- What the destructor and an assignment do with the slot that a handle owns.
  give_up : Kernel → Ring → FdSlot → Table → Option (Noexcept Table)
  unfolding update release_slot
  give_up k r s tbl = after (update k r s.slot (negsuc 0) tbl)
    where
      released : Option Table → Option (Noexcept Table)
      released none = none
      released (some tbl') = some (done tbl')

      after : Outcome (Unit {0}) × Table → Option (Noexcept Table)
      after (ok _, tbl') = released (release_slot s.slot tbl')
      after (_, tbl') = some terminated

  -- The destructor.
  unfoldable pub drop : Kernel → Ring → FdSlot → Table → Option (Noexcept Table)
  unfolding give_up
  drop k r s tbl = elim s.table [ none ↦ some (done tbl) | some _ ↦ give_up k r s tbl ]

  -- Assignment from another handle: the table, this handle, and what is left of the other. `same` is
  -- `this == &other`, where nothing happens.
  unfoldable pub assign :
      Kernel
      → Ring
      → (same : Bool) → FdSlot
      → FdSlot
      → Table
      → Option (Noexcept (Table × FdSlot × FdSlot))
  unfolding drop
  assign k r true this other tbl = some (done (tbl, this, other))
  assign k r false this other tbl = elim (drop k r this tbl) [
    | none ↦ none
    | some terminated ↦ some terminated
    | some (done tbl') ↦ some (done (tbl', other, record other { table = none }))
  ]

  -- On the calling thread's table, if it has one; the table is returned with it.
  unfoldable pub acquire_fd_slot :
      Kernel → Ring → ℤ → Option Table → Option (Outcome FdSlot × Option Table)
  unfolding borrow_slot update
  acquire_fd_slot k r fd none = some (
    err (
        runtime_error
          "acquire_fd_slot called without registered_fd_capacity configured in context_options"),
    none,
  )
  acquire_fd_slot k r fd (some tbl) = elim (borrow_slot tbl) [
    | none ↦ none
    | some got ↦ some (install got)
  ]
    where
      handle : ℕ → Outcome (Unit {0}) × Table → Outcome FdSlot × Option Table
      handle slot (ok _, tbl') = (ok (record { table = some tbl.self; slot = slot }), some tbl')
      handle slot (err e, tbl') = (err e, some tbl')
      handle slot (fault, tbl') = (fault, some tbl')

      install : Outcome ℕ × Table → Outcome FdSlot × Option Table
      install (ok slot, tbl') = handle slot (update k r slot fd tbl')
      install (err e, tbl') = (err e, some tbl')
      install (fault, tbl') = (fault, some tbl')
