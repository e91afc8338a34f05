-- ===== src/Channel/Fifo.antt =====
-- A channel takes as many items as its capacity says without blocking, and gives them back in order.
use fiberexec.Base.{
  ℕ, suc, ◌+◌, ◌<◌, ◌≤◌, ◌≡◌, sym, subst, refl, ◌∙◌, ap, false, List, [], ◌∷◌, ◌++◌, Option, none,
  some, length, map, arith, bit_ceil, bit_ceil-reaches, bit_ceil-power, ◌^◌, length-snoc,
}
use mathlib.Core.List.{append_assoc, append-nil}
use fiberexec.Channel.Boost.{BoostChannel, IsDocumented, IsAfter}
use fiberexec.Channel.{ChannelOpStatus, success, channel, push, pop}

module _ {A : Type 0} (C : BoostChannel A) where
  -- Pushes in order; none if one of them suspends.
  abbrev pub push_all : List A → C.Chan → Option (List ChannelOpStatus × C.Chan)
  push_all [] ch = some ([], ch)
  push_all (x ∷ xs) ch = elim (push C x ch) [
    | none ↦ none
    | some (s, ch') ↦ elim (push_all xs ch') [ none ↦ none | some (ss, ch'') ↦ some (s ∷ ss, ch'') ]
  ]

  -- The values of so many pops; none if one of them suspends.
  abbrev pub pop_all : ℕ → C.Chan → Option (List (Option A))
  pop_all ℕ.zero ch = some []
  pop_all (suc n) ch = elim (pop C ch) [
    | none ↦ none
    | some (s, v, ch') ↦ elim (pop_all n ch') [ none ↦ none | some vs ↦ some (v ∷ vs) ]
  ]

module _ {A : Type 0} {C : BoostChannel A} (laws : IsDocumented C) where
  -- The channel `ch'` after an operation on `ch` that leaves the items `xs`.
  abbrev pub Becomes : C.Chan → List A → C.Chan → Type 0
  Becomes ch xs ch' = IsAfter laws.items laws.slots C.is_closed ch xs ch'

  -- An item more, then the rest of a list.
  pub Becomes-chain :
      (x : A) (xs : List A) {ch ch' ch'' : C.Chan}
      → Becomes ch (laws.items ch ++ (x ∷ [])) ch'
      → Becomes ch' (laws.items ch' ++ xs) ch''
      → Becomes ch (laws.items ch ++ (x ∷ xs)) ch''
  Becomes-chain x xs {ch} b c = record {
    holds =
        c.holds ∙ ap (λ (l : List A). l ++ xs) b.holds ∙ append_assoc (laws.items ch) (x ∷ []) xs;
    slots_same = c.slots_same ∙ b.slots_same;
    closed_same = c.closed_same ∙ b.closed_same;
  }

  pub Becomes-none : (ch : C.Chan) → Becomes ch (laws.items ch ++ []) ch
  Becomes-none ch = record {
    holds = sym (append-nil (laws.items ch));
    slots_same = refl;
    closed_same = refl;
  }

  pub push_lem :
      (x : A) (ch : C.Chan)
      → C.is_closed ch ≡ false
      → length (laws.items ch) + 1 < laws.slots ch
      → (ch' : C.Chan) × (push C x ch ≡ some (success, ch'))
        × Becomes ch (laws.items ch ++ (x ∷ [])) ch'
  unfolding push
  push_lem x ch opened room =
      let (ch', p, b) = laws.push-room x ch opened room in (ch', rw (push, p) refl, b)

  pub pop_lem :
      (x : A) (xs : List A) (ch : C.Chan)
      → laws.items ch ≡ x ∷ xs
      → (ch' : C.Chan) × (pop C ch ≡ some (success, some x, ch')) × Becomes ch xs ch'
  unfolding pop
  pop_lem x xs ch e = let (ch', p, b) = laws.pop-some x xs ch e in (ch', rw (pop, p) refl, b)

  push_all_lem :
      (xs : List A) (ch : C.Chan)
      → C.is_closed ch ≡ false
      → length (laws.items ch) + length xs < laws.slots ch
      → (ch' : C.Chan) × (push_all C xs ch ≡ some (map (λ _. success) xs, ch'))
        × Becomes ch (laws.items ch ++ xs) ch'
  push_all_lem [] ch opened room = (ch, refl, Becomes-none ch)
  push_all_lem (x ∷ xs) ch opened room =
      let (ch', p, b) = push_lem x ch opened (omega arith) in
      let (ch'', q, c) =
        push_all_lem xs ch' (b.closed_same ∙ opened)
          (omega (arith, b.slots_same, ap length b.holds, length-snoc (laws.items ch) x)) in
      (ch'', rw (push_all, p, push_all, q) refl, Becomes-chain x xs b c)

  pop_all_lem :
      (xs : List A) (ch : C.Chan)
      → laws.items ch ≡ xs
      → pop_all C (length xs) ch ≡ some (map some xs)
  pop_all_lem [] ch e = refl
  pop_all_lem (x ∷ xs) ch e =
      let (ch', p, b) = pop_lem x xs ch e in
      rw (pop_all, p, pop_all, pop_all_lem xs ch' b.holds) refl

  -- A channel of a capacity of at least one is made with a size that Boost accepts: it is empty and open.
  pub new_channel :
      (capacity : ℕ)
      → 1 ≤ capacity
      → (laws.items (channel C capacity) ≡ [])
        × (laws.slots (channel C capacity) ≡ bit_ceil (capacity + 1))
        × (C.is_closed (channel C capacity) ≡ false)
  unfolding channel
  new_channel capacity one =
      let (i, e) = bit_ceil-power (capacity + 1) in
      subst
        (λ (n : ℕ).
          (laws.items (C.make n) ≡ [])
          × (laws.slots (C.make n) ≡ n)
          × (C.is_closed (C.make n) ≡ false))
        (sym e)
        (
          laws.make-items i (positive i e),
          laws.make-slots i (positive i e),
          laws.make-open i (positive i e),
        )
    where
      positive : (i : ℕ) → bit_ceil (capacity + 1) ≡ 2 ^ i → 1 ≤ i
      positive ℕ.zero e = absurd (omega (arith, e, bit_ceil-reaches (capacity + 1)))
      positive (suc i) e = omega arith

  -- A new channel of a capacity of at least one takes any list of items that is no longer than its
  -- capacity: none of the pushes blocks or fails, and as many pops then give the items back in order,
  -- and do not block.
  pub channel_fifo :
      (capacity : ℕ) (xs : List A)
      → 1 ≤ capacity
      → length xs ≤ capacity
      → (ch : C.Chan) × (push_all C xs (channel C capacity) ≡ some (map (λ _. success) xs, ch))
        × (pop_all C (length xs) ch ≡ some (map some xs))
  channel_fifo capacity xs one fits =
      let (none_yet, slots, opened) = new_channel capacity one in
      let (ch, p, b) =
        push_all_lem xs (channel C capacity) opened
          (omega (arith, ap length none_yet, slots, bit_ceil-reaches (capacity + 1))) in
      (ch, p, pop_all_lem xs ch (b.holds ∙ ap (λ (l : List A). l ++ xs) none_yet))
