-- ===== src/FixedFdTable/Refusal.antt =====
-- What a refused update does to the slots: it throws in `acquire_fd_slot`, and ends the program in a
-- destructor.
use fiberexec.Base.{
  ℕ, zero, suc, ◌+◌, ◌<◌, ◌≡◌, refl, ℤ, negsuc, neg, is_neg, true, List, [], ◌∷◌, Option, none,
  some, length, arith,
}
use fiberexec.Channel.Boost.{BoostChannel, IsDocumented}
use fiberexec.Channel.FreeList.{take-waits}
use fiberexec.Runtime.Uring.{Kernel, Ring}
use fiberexec.Runtime.Thread.{err, system_error}
use fiberexec.FixedFdTable.Slots.{IsTable, borrow_slot_lem}
use fiberexec.FixedFdTable.{FdSlot, Table, update, borrow_slot, drop, acquire_fd_slot, terminated}

module _ {C : BoostChannel ℕ} (laws : IsDocumented C) where
  -- If the kernel refuses the descriptor, the call throws and the slot is lost: it is taken off the
  -- free list, and no handle owns it.
  acquire-refused :
      {n : ℕ} {tbl : Table C} {lent : List ℕ} (k : Kernel) (r : Ring) (fd : ℤ)
      → IsTable laws n tbl lent
      → length lent < n
      → ((i : ℕ) → is_neg (k.update_file r i fd) ≡ true)
      → (i : ℕ) × (tbl' : Table C) × (acquire_fd_slot C k r fd (some tbl)
          ≡ some (
            err (system_error (neg (k.update_file r i fd)) "io_uring_register_files_update"),
            some tbl',
          ))
        × IsTable laws n tbl' (i ∷ lent)
  unfolding acquire_fd_slot update
  acquire-refused {n} {tbl} {lent} k r fd f l refused =
      let (i, tbl', e, self, same, g) = borrow_slot_lem laws f l in
      (i, tbl', rw (acquire_fd_slot, e, refused i) refl, g)

  acquire-waits :
      {n : ℕ} {tbl : Table C} {lent : List ℕ} (k : Kernel) (r : Ring) (fd : ℤ)
      → IsTable laws n tbl lent
      → length lent ≡ n
      → acquire_fd_slot C k r fd (some tbl) ≡ none
  unfolding acquire_fd_slot borrow_slot
  acquire-waits k r fd f l = rw (acquire_fd_slot, borrow_slot, take-waits laws f.free l) refl

  -- The table after so many calls that all throw; none once a call does not.
  abbrev pub after_throws : Kernel → Ring → ℤ → ℕ → Table C → Option (Table C)
  after_throws k r fd zero tbl = some tbl
  after_throws k r fd (suc i) tbl = elim (acquire_fd_slot C k r fd (some tbl)) [
    | none ↦ none
    | some (err e, some tbl') ↦ after_throws k r fd i tbl'
    | some _ ↦ none
  ]

  after_refused :
      {n : ℕ} (m : ℕ) {tbl : Table C} {lent : List ℕ} (k : Kernel) (r : Ring) (fd : ℤ)
      → IsTable laws n tbl lent
      → m + length lent ≡ n
      → ((i : ℕ) → is_neg (k.update_file r i fd) ≡ true)
      → (tbl' : Table C) × (lent' : List ℕ) × (after_throws k r fd m tbl ≡ some tbl')
        × IsTable laws n tbl' lent'
        × (length lent' ≡ n)
  after_refused zero {tbl} {lent} k r fd f l refused = (tbl, lent, refl, f, omega arith)
  after_refused (suc m) {tbl} {lent} k r fd f l refused =
      let (i, tbl', e, g) = acquire-refused k r fd f (omega arith) refused in
      let (tbl'', lent', e', g', l') = after_refused m k r fd g (omega arith) refused in
      (tbl'', lent', rw (after_throws, e, after_throws, e') refl, g', l')

  -- A table that nobody holds a slot of, and a descriptor that the kernel refuses: after as many calls
  -- of `acquire_fd_slot` as the table has slots, each of which throws, no handle is live and a
  -- further call, for any descriptor, suspends for ever.
  pub refusals_exhaust :
      {n : ℕ} {tbl : Table C} (k : Kernel) (r : Ring) (bad fd : ℤ)
      → IsTable laws n tbl []
      → ((i : ℕ) → is_neg (k.update_file r i bad) ≡ true)
      → (tbl' : Table C) × (after_throws k r bad n tbl ≡ some tbl')
        × (acquire_fd_slot C k r fd (some tbl') ≡ none)
  refusals_exhaust {n} k r bad fd f refused =
      let (tbl', lent, e, g, l) = after_refused n k r bad f (omega arith) refused in
      (tbl', e, acquire-waits k r fd g l)

-- The destructor of a live handle ends the program if the kernel refuses to clear the slot.
pub drop-refused :
    (C : BoostChannel ℕ) (tbl : Table C) (k : Kernel) (r : Ring) (s : FdSlot) (owner : ℕ)
    → s.table ≡ some owner
    → is_neg (k.update_file r s.slot (negsuc 0)) ≡ true
    → drop C k r s tbl ≡ some terminated
unfolding drop update
drop-refused C tbl k r s owner owned refused = rw (drop, owned, refused) refl
