-- ===== src/FixedFdTable/Slots.antt =====
-- A slot is free and empty, or owned by one handle and holds its descriptor.
use fiberexec.Base.{
  ℕ, zero, suc, ◌^◌, ◌<◌, ◌≤◌, ◌≡◌, ◌≢◌, refl, ◌∙◌, ap, ℤ, negsuc, is_neg, true, false, List, [],
  ◌∷◌, ◌++◌, some, length, arith, set, get_elem?, length-set, get_elem?-set, get_elem?-set_other,
  map, dec_lt, ℕ_discrete,
}
use fiberexec.Base.Range.{
  count-here, count-other, range, range_from, count, count-range_from, count-range_from-out,
}
use fiberexec.Base.Slots.{count-split}
use fiberexec.Channel.Boost.{BoostChannel, IsDocumented}
use fiberexec.Channel.{channel}
use fiberexec.Channel.FreeList.{try_fill, IsFreeList, try_fill-IsFreeList, take_lem, give_lem}
use fiberexec.Runtime.Uring.{Kernel, Ring}
use fiberexec.Runtime.Thread.{Thread, ok}
use fiberexec.FixedFdTable.{
  FdSlot, Table, construct, update, borrow_slot, release_slot, drop, acquire_fd_slot, done,
}

module _ {C : BoostChannel ℕ} (laws : IsDocumented C) where
  -- A table of `n` slots of which those in `lent` are taken: the others are free, and the kernel has
  -- nothing registered in them.
  pub record IsTable (n : ℕ) (tbl : Table C) (lent : List ℕ) : Type 0 where
    pub free : IsFreeList laws n tbl.free_list lent
    pub size : length tbl.files ≡ n
    pub empty :
        (i : ℕ) → 1 ≤ count i (laws.items tbl.free_list) → get_elem? tbl.files i ≡ some (negsuc 0)

  empty_from :
      (i n j : ℕ)
      → j < n
      → get_elem? (map (λ (_ : ℕ). negsuc 0) (range_from i n)) j ≡ some (negsuc 0)
  empty_from i zero j h = absurd (omega arith)
  empty_from i (suc n) zero h = refl
  empty_from i (suc n) (suc j) h = empty_from (suc i) n j (omega arith)

  length-empty_from : (i n : ℕ) → length (map (λ (_ : ℕ). negsuc 0) (range_from i n)) ≡ n
  length-empty_from i zero = refl
  length-empty_from i (suc n) = omega (arith, length-empty_from (suc i) n)

  free_below :
      {n : ℕ} {ch : C.Chan} {lent : List ℕ}
      → IsFreeList laws n ch lent
      → (i : ℕ) → 1 ≤ count i (laws.items ch)
      → i < n
  free_below {n} f i h = elim (dec_lt i n) [
    | yes l ↦ l
    | no out ↦ absurd (omega (arith, f.each i, count-range_from-out i 0 n (omega arith)))
  ]

  lent_below :
      {n : ℕ} {ch : C.Chan} {lent : List ℕ}
      → IsFreeList laws n ch lent
      → (i : ℕ) → 1 ≤ count i lent
      → i < n
  lent_below {n} f i h = elim (dec_lt i n) [
    | yes l ↦ l
    | no out ↦ absurd (omega (arith, f.each i, count-range_from-out i 0 n (omega arith)))
  ]

  -- On a thread that has a ring, whose kernel accepts the table: all slots are free and empty.
  pub construct_table_lem :
      (self n : ℕ) (k : Kernel) (t : Thread)
      → t.has_ring ≡ true
      → 1 ≤ n
      → n < 2 ^ 32
      → is_neg (k.register_files t.ring n) ≡ false
      → (tbl : Table C) × (construct C self n k t ≡ (ok tbl, t)) × IsTable n tbl []
  unfolding construct
  construct_table_lem self n k t ring some_slots fits accepted = (
    record {
      self = self;
      capacity = n;
      free_list = try_fill C (range n) (channel C n);
      files = map (λ _. negsuc 0) (range n);
    },
    ground (arith, ring, accepted),
    record {
      free = try_fill-IsFreeList laws n some_slots;
      size = length-empty_from 0 n;
      empty = λ i h. empty_from 0 n i (free_below (try_fill-IsFreeList laws n some_slots) i h);
    },
  )

  -- A slot is taken from the free list; the kernel's table stays.
  pub borrow_slot_lem :
      {n : ℕ} {tbl : Table C} {lent : List ℕ}
      → IsTable n tbl lent
      → length lent < n
      → (i : ℕ) × (tbl' : Table C) × (borrow_slot C tbl ≡ some (ok i, tbl'))
        × (tbl'.self ≡ tbl.self)
        × (tbl'.files ≡ tbl.files)
        × IsTable n tbl' (i ∷ lent)
  unfolding borrow_slot
  borrow_slot_lem {n} {tbl} {lent} f l =
      let (i, ch, e, g) = take_lem laws f.free l in
      (
        i,
        record tbl { free_list = ch },
        rw (borrow_slot, e) refl,
        refl,
        refl,
        record {
          free = g;
          size = f.size;
          empty = λ j h. f.empty j (omega (arith, f.free.each j, g.each j));
        },
      )

  -- Another content of a slot that is taken keeps the table as it should be.
  set-IsTable :
      {n : ℕ} {tbl : Table C} {lent : List ℕ} (i : ℕ) (fd : ℤ)
      → IsTable n tbl lent
      → 1 ≤ count i lent
      → IsTable n (record tbl { files = set tbl.files i fd }) lent
  set-IsTable {n} {tbl} {lent} i fd f taken = record {
    free = f.free;
    size = length-set tbl.files i fd ∙ f.size;
    empty = λ j h. get_elem?-set_other tbl.files i j fd (apart j h) ∙ f.empty j h;
  }
    where
      apart : (j : ℕ) → 1 ≤ count j (laws.items tbl.free_list) → j ≢ i
      apart j h e = absurd (
          omega
            (arith, f.free.each i, ap (λ (a : ℕ). count a (laws.items tbl.free_list)) e, within))
        where
          within : count i (range n) ≤ 1
          within = count-range_from i 0 n

  -- With a free slot left and a kernel that accepts the descriptor: the caller gets, without waiting, a
  -- handle of a slot that nobody else has, the kernel has the descriptor registered there, and every
  -- other slot is as before.
  pub acquire_installs :
      {n : ℕ} {tbl : Table C} {lent : List ℕ} (k : Kernel) (r : Ring) (fd : ℤ)
      → IsTable n tbl lent
      → length lent < n
      → ((i : ℕ) → is_neg (k.update_file r i fd) ≡ false)
      → (s : FdSlot) × (tbl' : Table C) × (acquire_fd_slot C k r fd (some tbl)
          ≡ some (ok s, some tbl'))
        × (s.table ≡ some tbl.self)
        × (count s.slot lent ≡ 0)
        × IsTable n tbl' (s.slot ∷ lent)
        × (get_elem? tbl'.files s.slot ≡ some fd)
        × ((j : ℕ) → j ≢ s.slot → get_elem? tbl'.files j ≡ get_elem? tbl.files j)
  unfolding acquire_fd_slot update
  acquire_installs {n} {tbl} {lent} k r fd f l accepted =
      let (i, tbl', e, self, same, g) = borrow_slot_lem f l in
      (
        record { table = some tbl.self; slot = i },
        record tbl' { files = set tbl'.files i fd },
        rw (acquire_fd_slot, e, accepted i, self) refl,
        refl,
        omega (arith, g.free.each i, count-range_from i 0 n, count-here i lent),
        set-IsTable i fd g (omega (arith, count-here i lent)),
        get_elem?-set tbl'.files i fd
            (omega (arith, g.size, lent_below g.free i (omega (arith, count-here i lent)))),
        λ j other.
            get_elem?-set_other tbl'.files i j fd other ∙ ap (λ (l : List ℤ). get_elem? l j) same,
      )

  -- The destructor of a live handle, with a kernel that clears the slot: it does not wait, the slot is
  -- free and empty again, and every other slot is as before.
  pub drop_clears :
      {n : ℕ} {tbl : Table C} (k : Kernel) (r : Ring) (s : FdSlot) (owner : ℕ) (xs ys : List ℕ)
      → IsTable n tbl (xs ++ s.slot ∷ ys)
      → s.table ≡ some owner
      → is_neg (k.update_file r s.slot (negsuc 0)) ≡ false
      → (tbl' : Table C) × (drop C k r s tbl ≡ some (done tbl'))
        × IsTable n tbl' (xs ++ ys)
        × (get_elem? tbl'.files s.slot ≡ some (negsuc 0))
        × ((j : ℕ) → j ≢ s.slot → get_elem? tbl'.files j ≡ get_elem? tbl.files j)
  unfolding drop update release_slot
  drop_clears {n} {tbl} k r s owner xs ys f owned accepted =
      let (ch, e, g) = give_lem laws xs s.slot ys f.free in
      (
        record tbl { free_list = ch; files = set tbl.files s.slot (negsuc 0) },
        rw (drop, owned, accepted, release_slot, e) refl,
        record {
          free = g;
          size = length-set tbl.files s.slot (negsuc 0) ∙ f.size;
          empty = λ j h. elim (ℕ_discrete j s.slot) [
            | yes e ↦ ap (get_elem? (set tbl.files s.slot (negsuc 0))) e ∙ cleared
            | no other ↦
                get_elem?-set_other tbl.files s.slot j (negsuc 0) other
                ∙ f.empty j (
                    omega (
                      arith,
                      f.free.each j,
                      g.each j,
                      count-split j s.slot xs ys,
                      count-other j s.slot [] other,
                    ))
          ];
        },
        cleared,
        λ j other. get_elem?-set_other tbl.files s.slot j (negsuc 0) other,
      )
    where
      cleared : get_elem? (set tbl.files s.slot (negsuc 0)) s.slot ≡ some (negsuc 0)
      cleared = get_elem?-set tbl.files s.slot (negsuc 0) (
          omega (
            arith,
            f.size,
            lent_below f.free s.slot
                (omega (arith, count-split s.slot s.slot xs ys, count-here s.slot [])),
          ))
