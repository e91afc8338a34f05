-- ===== src/FixedBufferPool/Ownership.antt =====
-- Each registered buffer is free or owned by one handle, and no operation waits without need.
use fiberexec.Base.{
  ℕ, ◌+◌, ◌*◌, ◌^◌, ◌<◌, ◌≤◌, ◌≡◌, ◌⊎◌, sym, subst, refl, ap, is_neg, true, false, List, [], ◌∷◌,
  ◌++◌, Option, none, some, length, arith, max, bit_ceil, dec_lt,
}
use fiberexec.Base.Range.{count}
use fiberexec.Base.Slots.{slots_apart}
use fiberexec.Channel.Boost.{BoostChannel, IsDocumented}
use fiberexec.Channel.FreeList.{IsFreeList, fill-IsFreeList, take_lem, take-waits, give_lem}
use fiberexec.Runtime.Uring.{Kernel}
use fiberexec.Runtime.Thread.{Thread, Outcome, ok}
use fiberexec.FixedBufferPool.{FixedBuffer, Pool, construct, borrow, return_buffer, data_of}

module _ {C : BoostChannel ℕ} (laws : IsDocumented C) where
  abbrev pub count_of : ℕ → ℕ
  count_of buf_count = max (bit_ceil buf_count) 2

  -- A pool is constructed without blocking, with all its buffers free, on a thread that has a ring and
  -- whose kernel accepts the buffers, if their number fits in a uint16_t once it is rounded up.
  pub construct_lem :
      (self buf_size buf_count : ℕ) (k : Kernel) (t : Thread)
      → t.has_ring ≡ true
      → 1 ≤ buf_size
      → count_of buf_count < 2 ^ 16
      → is_neg (k.register_buffers t.ring (count_of buf_count)) ≡ false
      → (p : Pool C) × (construct C self buf_size buf_count k t ≡ (ok (some p), t))
        × (p.buf_count ≡ count_of buf_count)
        × (p.buf_size ≡ buf_size)
        × IsFreeList laws (count_of buf_count) p.free_list []
  unfolding construct
  construct_lem self buf_size buf_count k t ring sized fits accepted =
      let (ch, e, f) = fill-IsFreeList laws (count_of buf_count) (omega arith) in
      (
        record {
          self = self;
          has_ring = true;
          buf_size = buf_size;
          buf_count = count_of buf_count;
          storage = buf_size * count_of buf_count;
          free_list = ch;
        },
        ground (arith, e, ring, accepted),
        refl,
        refl,
        f,
      )

  -- With a free buffer left a handle is had at once.
  pub borrow_lem :
      {n : ℕ} (p : Pool C) {lent : List ℕ}
      → IsFreeList laws n p.free_list lent
      → length lent < n
      → (b : FixedBuffer) × (p' : Pool C) × (borrow C p ≡ some (ok b, p'))
        × (b.pool ≡ some p.self)
        × IsFreeList laws n p'.free_list (b.idx ∷ lent)
  unfolding borrow
  borrow_lem p f l =
      let (i, ch, e, g) = take_lem laws f l in
      (
        record { pool = some p.self; idx = i },
        record p { free_list = ch },
        rw (borrow, e) refl,
        refl,
        g,
      )

  pub borrow-waits :
      {n : ℕ} (p : Pool C) {lent : List ℕ}
      → IsFreeList laws n p.free_list lent
      → length lent ≡ n
      → borrow C p ≡ none
  unfolding borrow
  borrow-waits p f l = rw (borrow, take-waits laws f l) refl

  pub return_lem :
      {n : ℕ} (p : Pool C) (xs : List ℕ) (i : ℕ) (ys : List ℕ)
      → IsFreeList laws n p.free_list (xs ++ i ∷ ys)
      → (p' : Pool C) × (return_buffer C i p ≡ some p') × IsFreeList laws n p'.free_list (xs ++ ys)
  unfolding return_buffer
  return_lem p xs i ys f =
      let (ch, e, g) = give_lem laws xs i ys f in
      (record p { free_list = ch }, rw (return_buffer, e) refl, g)

-- The pool of a thread, and the indices of the live handles.
pub record System (C : BoostChannel ℕ) : Type 0 where
  pub pool : Pool C
  pub lent : List ℕ

module _ {C : BoostChannel ℕ} where
  abbrev pub after_borrow : FixedBuffer → Pool C → System C → System C
  after_borrow b p s = record { pool = p; lent = b.idx ∷ s.lent }

  -- A borrow that returns a handle, and the destructor of a live handle.
  pub data Step (s : System C) : System C → Type 0 where
    borrows :
        (b : FixedBuffer) (p : Pool C)
        → borrow C s.pool ≡ some (ok b, p)
        → Step s (after_borrow b p s)
    returns :
        (xs : List ℕ) (i : ℕ) (ys : List ℕ) (p : Pool C)
        → s.lent ≡ xs ++ i ∷ ys
        → return_buffer C i s.pool ≡ some p
        → Step s (record { pool = p; lent = xs ++ ys })

  pub data Reach (s : System C) : System C → Type 0 where
    here : Reach s s
    later : {t u : System C} → Reach s t → Step t u → Reach s u

module _ {C : BoostChannel ℕ} (laws : IsDocumented C) where
  -- All of the `n` buffers are free.
  pub record IsNew (n : ℕ) (s : System C) : Type 0 where
    pub free : IsFreeList laws n s.pool.free_list []
    pub none_lent : s.lent ≡ []

  abbrev Inv : ℕ → System C → Type 0
  Inv n s = IsFreeList laws n s.pool.free_list s.lent

  pub same_answer :
      {b b' : FixedBuffer} {p p' : Pool C} {o : Option (Outcome FixedBuffer × Pool C)}
      → o ≡ some (ok b', p')
      → o ≡ some (ok b, p)
      → Path (FixedBuffer × Pool C) (b', p') (b, p)
  same_answer e e' = cc

  pub same_pool : {p p' : Pool C} {o : Option (Pool C)} → o ≡ some p' → o ≡ some p → p' ≡ p
  same_pool e e' = cc

  Step-Inv : (n : ℕ) {s t : System C} → Step s t → Inv n s → Inv n t
  Step-Inv n {s} (borrows b p e) f = elim (dec_lt (length s.lent) n) [
    | yes l ↦
        let (b', p', e', _, g) = borrow_lem laws s.pool f l in
        subst (λ (q : FixedBuffer × Pool C). IsFreeList laws n q.1.free_list (q.0.idx ∷ s.lent))
          (same_answer e' e) g
    | no l ↦ let w = borrow-waits laws s.pool f (omega (arith, f.total)) in absurd (ground arith)
  ]
  Step-Inv n {s} (returns xs i ys p e r) f =
      let (p', r', g) =
        return_lem laws s.pool xs i ys (subst (IsFreeList laws n s.pool.free_list) e f) in
      subst (λ (q : Pool C). IsFreeList laws n q.free_list (xs ++ ys)) (same_pool r' r) g

  Reach-Inv : (n : ℕ) {s t : System C} → IsNew n s → Reach s t → Inv n t
  Reach-Inv n {s} new here = subst (IsFreeList laws n s.pool.free_list) (sym new.none_lent) new.free
  Reach-Inv n new (later r st) = Step-Inv n st (Reach-Inv n new r)

  -- In every state that a new pool of `n` buffers reaches, a borrow returns a handle at once if fewer
  -- than `n` handles are live, and suspends if `n` are.
  pub borrow_serves :
      {n : ℕ} {s t : System C}
      → IsNew n s
      → Reach s t
      → (length t.lent < n → (b : FixedBuffer) × (p : Pool C) × (borrow C t.pool ≡ some (ok b, p)))
        × (length t.lent ≡ n → borrow C t.pool ≡ none)
  borrow_serves {n} {t = t} new r = (
    λ l. let (b, p, e, _, _) = borrow_lem laws t.pool (Reach-Inv n new r) l in (b, p, e),
    λ l. borrow-waits laws t.pool (Reach-Inv n new r) l,
  )

  -- In every state that a new pool reaches, the destructor of a live handle returns its buffer
  -- without suspending.
  pub return_serves :
      {n : ℕ} {s t : System C} (xs : List ℕ) (i : ℕ) (ys : List ℕ)
      → IsNew n s
      → Reach s t
      → t.lent ≡ xs ++ i ∷ ys
      → (p : Pool C) × (return_buffer C i t.pool ≡ some p)
  return_serves {n} {t = t} xs i ys new r e =
      let (p, q, _) =
        return_lem laws t.pool xs i ys
          (subst (IsFreeList laws n t.pool.free_list) e (Reach-Inv n new r)) in
      (p, q)

  -- In every state that a new pool of `n` buffers reaches, no two live handles own one buffer: the
  -- bytes of a live handle lie in the storage, and apart from those of every other live handle.
  pub buffers_apart :
      {n : ℕ} {s t : System C} (buf_size : ℕ) (b c : FixedBuffer) (xs ys : List ℕ)
      → IsNew n s
      → Reach s t
      → t.lent ≡ xs ++ b.idx ∷ ys
      → 1 ≤ count c.idx (xs ++ ys)
      → ((data_of buf_size b).ptr + (data_of buf_size b).size ≤ n * buf_size)
        × (((data_of buf_size b).ptr + (data_of buf_size b).size ≤ (data_of buf_size c).ptr)
            ⊎ ((data_of buf_size c).ptr + (data_of buf_size c).size ≤ (data_of buf_size b).ptr))
  unfolding data_of
  buffers_apart {n} {t = t} buf_size b c xs ys new r e other =
      slots_apart n buf_size xs b.idx ys c.idx buf_size buf_size
        (λ id. omega (arith, (Reach-Inv n new r).each id, ap (count id) e)) other (omega arith)
        (omega arith)
