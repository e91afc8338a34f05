-- ===== src/MultishotRecv/Constructed.antt =====
-- The constructor of a receiver reaches the state from which its steps are followed.
use fiberexec.Base.{
  ℕ, zero, suc, ◌+◌, ◌%◌, ◌*◌, ◌==◌, ◌^◌, ◌≤◌, ℤ, pos, is_neg, ◌≡◌, refl, ap₂, true, false, [], ◌∷◌,
  map, arith, bit_ceil,
}
use fiberexec.Base.Range.{range, range_from}
use fiberexec.Runtime.Uring.{Op, Sqe, Ring, Kernel, prep, get_sqe as ring_get_sqe, edit}
use fiberexec.Runtime.Thread.{err, runtime_error, ok, Thread}
use fiberexec.FiberOps.Submission.{holding, sent_after, submit_ok}
use fiberexec.MultishotRecv.{Recv, construct, without}
use fiberexec.MultishotRecv.System.{System, IsNew}

-- The casts of the indices to uint16_t lose nothing.
casts : (i n : ℕ) → i + n ≤ 2 ^ 16 → map (λ (j : ℕ). j % 2 ^ 16) (range_from i n) ≡ range_from i n
casts i zero h = refl
casts i (suc n) h = ap₂ ◌∷◌ (omega arith) (casts (suc i) n (omega arith))

-- The entry that a receiver keeps armed.
abbrev pub recv_entry : (self bgid : ℕ) → ℤ → Sqe
recv_entry self bgid fd = record (prep (Op.recv_multishot fd 0 0 0)) {
  buffer_select = true;
  buf_group = bgid;
  user_data = self;
}

-- The object with its environment when the constructor returns.
abbrev pub fresh : Recv → Ring → System
fresh a r = record {
  obj = a;
  ring = r;
  armed = true;
  waiting = false;
  lent = [];
  arrived = [];
  handed = [];
}

-- The receiver that the constructor builds.
abbrev pub built : (bgid self : ℕ) → ℤ → (buf_size buf_count : ℕ) → Recv
built bgid self fd buf_size buf_count = record {
  self = self;
  fd = fd;
  bgid = bgid;
  buf_size = buf_size;
  buf_count = bit_ceil buf_count;
  storage = buf_size * bit_ceil buf_count;
  buf_ring = true;
  ring_bufs = map (λ i. i % 2 ^ 16) (range (bit_ceil buf_count));
  pending = [];
  waiter = false;
  woken = false;
  error = pos 0;
}

not_zero : (n : ℕ) → 1 ≤ n → (n == 0) ≡ false
not_zero n h = ground arith

-- On a worker with no entry left over, for sizes that are not zero and at most 2^16 buffers once their
-- number is rounded up, where the kernel sets up the ring of buffers, has a vacant entry and takes the
-- submission: the constructor returns a receiver, one batch of its receive entry is submitted, the ring
-- of buffers of its group stays set up, and the receiver is new: all of its buffers are in the ring, in
-- order, and no message is pending.
pub construct-IsNew :
    (bgid self : ℕ) (fd : ℤ) (buf_size buf_count : ℕ) (k : Kernel) (t : Thread)
    → t.has_ring ≡ true
    → t.ring.sq ≡ []
    → 1 ≤ buf_size
    → 1 ≤ buf_count
    → bit_ceil buf_count ≤ 2 ^ 16
    → is_neg (k.setup_buf_ring t.ring (bit_ceil buf_count) bgid) ≡ false
    → k.room t.ring ≡ true
    → is_neg (k.submit_ret (holding t (recv_entry self bgid fd)).ring) ≡ false
    → ((construct bgid self fd buf_size buf_count k t).0
        ≡ ok (built bgid self fd buf_size buf_count))
      × ((construct bgid self fd buf_size buf_count k t).1.ring
          ≡ sent_after t.ring (recv_entry self bgid fd ∷ []))
      × ((construct bgid self fd buf_size buf_count k t).1.buf_groups ≡ bgid ∷ t.buf_groups)
      × IsNew (bit_ceil buf_count) (
          fresh
            (built bgid self fd buf_size buf_count)
            (construct bgid self fd buf_size buf_count k t).1.ring)
unfolding construct ring_get_sqe edit
construct-IsNew bgid self fd buf_size buf_count k t on empty sized counted few set_up room ret = (
  run.0,
  run.1,
  run.2,
  record {
    armed = refl;
    waiting = refl;
    bufs = casts 0 (bit_ceil buf_count) (omega arith);
    no_items = refl;
    no_waiter = refl;
    asleep = refl;
    no_error = refl;
    none_lent = refl;
    none_arrived = refl;
    none_handed = refl;
  },
)
  where
    uncut : bit_ceil buf_count % 2 ^ 32 ≡ bit_ceil buf_count
    uncut = omega arith

    run :
        ((construct bgid self fd buf_size buf_count k t).0
          ≡ ok (built bgid self fd buf_size buf_count))
        × ((construct bgid self fd buf_size buf_count k t).1.ring
            ≡ sent_after t.ring (recv_entry self bgid fd ∷ []))
        × ((construct bgid self fd buf_size buf_count k t).1.buf_groups ≡ bgid ∷ t.buf_groups)
    run =
        rw
          (
            not_zero buf_size sized,
            not_zero buf_count counted,
            on,
            uncut,
            set_up,
            room,
            empty,
            ring_get_sqe,
            submit_ok k _ ret,
            ret,
          )
          (refl, refl, refl)

-- Where the kernel sets up the ring of buffers but has no vacant entry, the constructor throws, and has
-- freed the ring of buffers: no group is left that was not there before.
pub construct-ring_full :
    (bgid self : ℕ) (fd : ℤ) (buf_size buf_count : ℕ) (k : Kernel) (t : Thread)
    → t.has_ring ≡ true
    → 1 ≤ buf_size
    → 1 ≤ buf_count
    → is_neg (k.setup_buf_ring t.ring (bit_ceil buf_count % 2 ^ 32) bgid) ≡ false
    → k.room t.ring ≡ false
    → without bgid t.buf_groups ≡ t.buf_groups
    → construct bgid self fd buf_size buf_count k t
      ≡ (err (runtime_error "multishot_recv: io_uring ring full"), t)
unfolding construct ring_get_sqe
construct-ring_full bgid self fd buf_size buf_count k t on sized counted set_up full fresh_group =
    rw
      (
        not_zero buf_size sized,
        not_zero buf_count counted,
        on,
        set_up,
        full,
        ring_get_sqe,
        same_group bgid,
        fresh_group,
      )
      refl
  where
    same_group : (n : ℕ) → (n == n) ≡ true
    same_group n = ground arith
