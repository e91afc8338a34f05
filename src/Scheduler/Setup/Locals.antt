-- ===== src/Scheduler/Setup/Locals.antt =====
-- What the fibers of a worker find: the pool of buffers and the table of descriptors that the options
-- ask for.
use fiberexec.Base.{
  ℕ, ◌&&◌, ◌^◌, ◌≡◌, ◌<◌, refl, Bool, true, false, [], Option, none, some, is_some, ltb, is_neg,
  arith, Bool-cases, inl, inr, subst, ap, ℤ, String,
}
use fiberexec.Runtime.Uring.{Kernel}
use fiberexec.Runtime.Thread.{ok, err, runtime_error, Thread}
use fiberexec.Channel.Boost.{BoostChannel, IsDocumented}
use fiberexec.Channel.FreeList.{IsFreeList}
use fiberexec.FixedBufferPool as Buffers
use fiberexec.FixedBufferPool.Ownership.{construct_lem, count_of}
use fiberexec.FixedFdTable as Files
use fiberexec.FixedFdTable.Slots.{construct_table_lem, IsTable}
use fiberexec.Scheduler.Setup.{ContextOptions, Resources, make_buffers, make_files, set_up}

abbrev pub wants_buffers : ContextOptions → Bool
wants_buffers opts = ltb 0 opts.fixed_buffer_size && ltb 0 opts.fixed_buffer_count

abbrev pub wants_files : ContextOptions → Bool
wants_files opts = ltb 0 opts.registered_fd_capacity

abbrev pub no_buffers : String
no_buffers =
    "borrow_fixed_buffer called without fixed_buffer_size/fixed_buffer_count configured in context_options"

abbrev pub no_files : String
no_files = "acquire_fd_slot called without registered_fd_capacity configured in context_options"

-- The value of an option, or another.
abbrev get_or {ℓ} : {A : Type ℓ} → A → Option A → A
get_or d none = d
get_or d (some a) = a

module _ {C : BoostChannel ℕ} (laws : IsDocumented C) where
  -- The buffers that the options ask for, all of them free.
  abbrev pub AreFree : ContextOptions → Buffers.Pool C → Type 0
  AreFree opts p =
      (p.buf_count ≡ count_of laws opts.fixed_buffer_count)
      × (p.buf_size ≡ opts.fixed_buffer_size)
      × IsFreeList laws (count_of laws opts.fixed_buffer_count) p.free_list []

  -- What the kernel has to allow.
  pub record Allows (opts : ContextOptions) (k : Kernel) (t : Thread) : Type 0 where
    pub on_worker : t.has_ring ≡ true
    pub few_buffers : wants_buffers opts ≡ true → count_of laws opts.fixed_buffer_count < 2 ^ 16
    pub buffers :
        wants_buffers opts ≡ true
        → is_neg (k.register_buffers t.ring (count_of laws opts.fixed_buffer_count)) ≡ false
    pub few_files : wants_files opts ≡ true → opts.registered_fd_capacity < 2 ^ 32
    pub files :
        wants_files opts ≡ true
        → is_neg (k.register_files t.ring opts.registered_fd_capacity) ≡ false

  module _ (self : ℕ) (opts : ContextOptions) (k : Kernel) (t : Thread) (a : Allows opts k t) where
    make_buffers_lem :
        (b : Option (Buffers.Pool C)) × (make_buffers C self opts k t ≡ (ok (some b), t))
        × (is_some b ≡ wants_buffers opts)
        × ((p : Buffers.Pool C) → b ≡ some p → AreFree opts p)
    unfolding make_buffers
    make_buffers_lem = elim (Bool-cases (wants_buffers opts)) [
      | inr no_need ↦ (none, rw no_need refl, rw no_need refl, λ p e. absurd (ground arith))
      | inl need ↦
          let (p, e, c, s, free) =
            construct_lem laws self opts.fixed_buffer_size opts.fixed_buffer_count k t a.on_worker
              (ground arith) (a.few_buffers need) (a.buffers need) in
          (
            some p,
            rw (need, e) refl,
            rw need refl,
            λ q same. subst (AreFree opts) (ap (get_or p) same) (c, s, free),
          )
    ]

    make_files_lem :
        (f : Option (Files.Table C)) × (make_files C self opts k t ≡ (ok f, t))
        × (is_some f ≡ wants_files opts)
        × ((tbl : Files.Table C) → f ≡ some tbl → IsTable laws opts.registered_fd_capacity tbl [])
    unfolding make_files
    make_files_lem = elim (Bool-cases (wants_files opts)) [
      | inr no_need ↦ (none, rw no_need refl, rw no_need refl, λ p e. absurd (ground arith))
      | inl need ↦
          let (tbl, e, free) =
            construct_table_lem laws self opts.registered_fd_capacity k t a.on_worker (ground arith)
              (a.few_files need) (a.files need) in
          (
            some tbl,
            rw (need, e) refl,
            rw need refl,
            λ q same.
                subst (λ (x : Files.Table C). IsTable laws opts.registered_fd_capacity x [])
                  (ap (get_or tbl) same) free,
          )
    ]

  -- A worker whose kernel allows what the options ask for sets up exactly that, without blocking and
  -- without submitting anything: a pool of buffers if both their size and their number are positive,
  -- with its buffers all free; and a table of descriptors if its capacity is positive, with its slots
  -- all free and empty. Without one, a fiber that asks for a buffer, or for a slot, is told so by a
  -- runtime_error.
  pub set_up_lem :
      (fbp fdt : ℕ) (opts : ContextOptions) (k : Kernel) (t : Thread)
      → Allows opts k t
      → (r : Resources C) × (set_up C fbp fdt opts k t ≡ (ok (some r), t))
        × (is_some r.buffers ≡ wants_buffers opts)
        × ((p : Buffers.Pool C) → r.buffers ≡ some p → AreFree opts p)
        × (is_some r.files ≡ wants_files opts)
        × ((tbl : Files.Table C)
            → r.files ≡ some tbl
            → IsTable laws opts.registered_fd_capacity tbl [])
        × (wants_buffers opts ≡ false
            → Buffers.borrow_fixed_buffer C r.buffers ≡ some (err (runtime_error no_buffers), none))
        × ((fd : ℤ)
            → wants_files opts ≡ false
            → Files.acquire_fd_slot C k t.ring fd r.files
              ≡ some (err (runtime_error no_files), none))
  unfolding set_up Buffers.borrow_fixed_buffer Files.acquire_fd_slot
  set_up_lem fbp fdt opts k t a =
      let (b, e, h, free) = make_buffers_lem fbp opts k t a in
      let (f, e', h', free') = make_files_lem fdt opts k t a in
      (
        record { buffers = b; files = f },
        rw (e, e') refl,
        h,
        free,
        h',
        free',
        λ off. ground (arith, h),
        λ fd off. ground (arith, h'),
      )
