-- ===== src/Channel/FreeList.antt =====
-- A channel of the indices that are free: the free lists of src/fixed_buffer_pool.cpp and
-- src/fixed_fd_table.cpp, the loops that fill them, and the accounting of taken indices.
use fiberexec.Base.{
  ℕ, ◌+◌, ◌<◌, ◌≤◌, ◌≡◌, sym, subst, refl, ◌∙◌, ap, false, List, [], ◌∷◌, ◌++◌, Option, none, some,
  length, arith, bit_ceil, bit_ceil-reaches, length-snoc, length-append,
}
use fiberexec.Base.Range.{range, length-range_from, count, count-append}
use fiberexec.Channel.Boost.{BoostChannel, IsDocumented}
use fiberexec.Channel.{success, channel, push, try_push, pop}
use fiberexec.Channel.Fifo.{new_channel, Becomes, Becomes-chain, Becomes-none, push_lem, pop_lem}

module _ {A : Type 0} (C : BoostChannel A) where
  -- Pushes each index and discards the status; none if one of the pushes suspends.
  unfoldable pub fill : List A → C.Chan → Option C.Chan
  fill [] ch = some ch
  fill (i ∷ is) ch = elim (push C i ch) [ none ↦ none | some (_, ch') ↦ fill is ch' ]

  unfoldable pub try_fill : List A → C.Chan → C.Chan
  try_fill [] ch = ch
  try_fill (i ∷ is) ch = try_fill is (try_push C i ch).1

module _ {C : BoostChannel ℕ} (laws : IsDocumented C) where
  -- The channel holds the indices below `n` that are not in `lent`, each once.
  pub record IsFreeList (n : ℕ) (ch : C.Chan) (lent : List ℕ) : Type 0 where
    pub opened : C.is_closed ch ≡ false
    pub fits : n < laws.slots ch
    pub total : length (laws.items ch) + length lent ≡ n
    pub each : (id : ℕ) → count id (laws.items ch) + count id lent ≡ count id (range n)

  new_room :
      (n : ℕ)
      → 1 ≤ n
      → length (laws.items (channel C n)) + length (range n) < laws.slots (channel C n)
  new_room n one =
      let (none_yet, slots, opened) = new_channel laws n one in
      omega (arith, ap length none_yet, slots, bit_ceil-reaches (n + 1), length-range_from 0 n)

  try_push_lem :
      (x : ℕ) (ch : C.Chan)
      → C.is_closed ch ≡ false
      → length (laws.items ch) + 1 < laws.slots ch
      → (ch' : C.Chan) × (try_push C x ch ≡ (success, ch'))
        × Becomes laws ch (laws.items ch ++ (x ∷ [])) ch'
  unfolding try_push
  try_push_lem x ch opened room =
      let (ch', p, b) = laws.try_push-room x ch opened room in (ch', rw (try_push, p) refl, b)

  fill_lem :
      (is : List ℕ) (ch : C.Chan)
      → C.is_closed ch ≡ false
      → length (laws.items ch) + length is < laws.slots ch
      → (ch' : C.Chan) × (fill C is ch ≡ some ch') × Becomes laws ch (laws.items ch ++ is) ch'
  unfolding fill
  fill_lem [] ch opened room = (ch, refl, Becomes-none laws ch)
  fill_lem (i ∷ is) ch opened room =
      let (ch', p, b) = push_lem laws i ch opened (omega arith) in
      let (ch'', q, c) =
        fill_lem is ch' (b.closed_same ∙ opened)
          (omega (arith, b.slots_same, ap length b.holds, length-snoc (laws.items ch) i)) in
      (ch'', rw (fill, p, fill, q) refl, Becomes-chain laws i is b c)

  try_fill_lem :
      (is : List ℕ) (ch : C.Chan)
      → C.is_closed ch ≡ false
      → length (laws.items ch) + length is < laws.slots ch
      → (ch' : C.Chan) × (try_fill C is ch ≡ ch') × Becomes laws ch (laws.items ch ++ is) ch'
  unfolding try_fill
  try_fill_lem [] ch opened room = (ch, refl, Becomes-none laws ch)
  try_fill_lem (i ∷ is) ch opened room =
      let (ch', p, b) = try_push_lem i ch opened (omega arith) in
      let (ch'', q, c) =
        try_fill_lem is ch' (b.closed_same ∙ opened)
          (omega (arith, b.slots_same, ap length b.holds, length-snoc (laws.items ch) i)) in
      (ch'', rw (try_fill, p, try_fill) q, Becomes-chain laws i is b c)

  new-IsFreeList :
      (n : ℕ) (ch : C.Chan)
      → 1 ≤ n
      → Becomes laws (channel C n) (laws.items (channel C n) ++ range n) ch
      → IsFreeList n ch []
  new-IsFreeList n ch one b = record {
    opened = b.closed_same ∙ empty.2;
    fits = omega (arith, b.slots_same, empty.1, bit_ceil-reaches (n + 1));
    total = omega (arith, ap length holds, length-range_from 0 n);
    each = λ id. omega (arith, ap (count id) holds);
  }
    where
      empty :
          (laws.items (channel C n) ≡ [])
          × (laws.slots (channel C n) ≡ bit_ceil (n + 1))
          × (C.is_closed (channel C n) ≡ false)
      empty = new_channel laws n one

      holds : laws.items ch ≡ range n
      holds = b.holds ∙ ap (λ (l : List ℕ). l ++ range n) empty.0

  -- A new channel takes all indices, and none of the pushes suspends.
  pub fill-IsFreeList :
      (n : ℕ)
      → 1 ≤ n
      → (ch : C.Chan) × (fill C (range n) (channel C n) ≡ some ch) × IsFreeList n ch []
  fill-IsFreeList n one =
      let (ch, e, b) =
        fill_lem (range n) (channel C n) (new_channel laws n one).2 (new_room n one) in
      (ch, e, new-IsFreeList n ch one b)

  pub try_fill-IsFreeList : (n : ℕ) → 1 ≤ n → IsFreeList n (try_fill C (range n) (channel C n)) []
  try_fill-IsFreeList n one =
      let (ch, e, b) =
        try_fill_lem (range n) (channel C n) (new_channel laws n one).2 (new_room n one) in
      subst (λ (c : C.Chan). IsFreeList n c []) (sym e) (new-IsFreeList n ch one b)

  -- An index of a list that is not empty can be taken without blocking.
  pub take_lem :
      {n : ℕ} {ch : C.Chan} {lent : List ℕ}
      → IsFreeList n ch lent
      → length lent < n
      → (i : ℕ) × (ch' : C.Chan) × (pop C ch ≡ some (success, some i, ch'))
        × IsFreeList n ch' (i ∷ lent)
  take_lem {n} {ch} {lent} f some_free = go (laws.items ch) refl
    where
      go :
          (l : List ℕ)
          → laws.items ch ≡ l
          → (i : ℕ) × (ch' : C.Chan) × (pop C ch ≡ some (success, some i, ch'))
            × IsFreeList n ch' (i ∷ lent)
      go [] e = absurd (omega (arith, f.total, ap length e))
      go (i ∷ is) e =
          let (ch', p, b) = pop_lem laws i is ch e in
          (
            i,
            ch',
            p,
            record {
              opened = b.closed_same ∙ f.opened;
              fits = omega (arith, b.slots_same, f.fits);
              total = omega (arith, f.total, ap length e, ap length b.holds);
              each = λ id. omega (arith, f.each id, ap (count id) e, ap (count id) b.holds);
            },
          )

  -- If all indices are taken, taking one suspends.
  pub take-waits :
      {n : ℕ} {ch : C.Chan} {lent : List ℕ}
      → IsFreeList n ch lent
      → length lent ≡ n
      → pop C ch ≡ none
  unfolding pop
  take-waits {n} {ch} f all =
      rw (pop, laws.pop-waits ch (nothing (laws.items ch) (omega (arith, f.total))) f.opened) refl
    where
      nothing : (l : List ℕ) → length l ≡ 0 → l ≡ []
      nothing [] e = refl
      nothing (x ∷ xs) e = absurd (omega arith)

  -- An index that was taken can be given back without blocking.
  pub give_lem :
      {n : ℕ} {ch : C.Chan} (xs : List ℕ) (i : ℕ) (ys : List ℕ)
      → IsFreeList n ch (xs ++ i ∷ ys)
      → (ch' : C.Chan) × (push C i ch ≡ some (success, ch')) × IsFreeList n ch' (xs ++ ys)
  give_lem {n} {ch} xs i ys f =
      let (ch', p, b) =
        push_lem laws i ch f.opened (omega (arith, f.total, f.fits, length-append xs (i ∷ ys))) in
      (
        ch',
        p,
        record {
          opened = b.closed_same ∙ f.opened;
          fits = omega (arith, b.slots_same, f.fits);
          total = omega (
            arith,
            f.total,
            ap length b.holds,
            length-snoc (laws.items ch) i,
            length-append xs (i ∷ ys),
            length-append xs ys,
          );
          each = λ id. omega (
            arith,
            f.each id,
            ap (count id) b.holds,
            count-append id (laws.items ch) (i ∷ []),
            count-append id xs (i ∷ ys),
            count-append id xs ys,
          );
        },
      )
