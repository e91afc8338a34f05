-- ===== src/EchoServerPool/Moves.antt =====
-- Every step keeps each descriptor in one place.
use fiberexec.Base.{
  ℕ, suc, ◌+◌, ◌<◌, ◌≤◌, ◌≡◌, refl, sym, subst, ap, ◌∙◌, inl, inr, true, false, List, [], ◌∷◌, ◌++◌,
  Option, none, some, length, length-append, length-snoc, arith, bit_ceil, bit_ceil-reaches,
}
use mathlib.Core.List.{append_assoc, append-nil}
use fiberexec.Base.Range.{count, count-append}
use fiberexec.Channel.Boost.{BoostChannel, IsDocumented}
use fiberexec.Channel.{ChannelOpStatus, success, closed, push, pop, close}
use fiberexec.Channel.Fifo.{Becomes, new_channel}
use fiberexec.EchoServerPool.{
  AcceptLoop, accepting, broken, ended, pushing, Worker, popping, gone, handling, finishing, Server,
  started, poppers, after_push, after_pop, Step, accepts, fails, pushes, closes, pops, hangs_up,
  handles, Reach, here, later, in_hand, handled,
}
use fiberexec.EchoServerPool.Connections.{
  is_ended, gone_in, gone_in-append, count-handled, Inv, push_cases, pop_cases,
}

pub same_push : {A : Type 0} {o : Option A} {r r' : A} → o ≡ some r → o ≡ some r' → r' ≡ r
same_push e f = cc

module _ {C : BoostChannel ℕ} (laws : IsDocumented C) where
  pushed-Inv :
      {n m : ℕ} {s : Server C} (fd : ℕ) (ch : C.Chan)
      → Inv laws n m s
      → s.loop ≡ pushing fd
      → Becomes laws s.conn_ch (laws.items s.conn_ch ++ (fd ∷ [])) ch
      → length (laws.items s.conn_ch) + 1 < laws.slots s.conn_ch
      → Inv laws n m (after_push C fd (success, ch) s)
  unfolding after_push
  pushed-Inv {s = s} fd ch v e b room = record {
    channel_open = b.closed_same ∙ v.channel_open ∙ ap is_ended e;
    in_order =
        ap (λ (l : List ℕ). s.taken ++ (l ++ [])) b.holds
        ∙ ap (λ (l : List ℕ). s.taken ++ l) (append-nil (laws.items s.conn_ch ++ (fd ∷ [])))
        ∙ ap (λ (p : AcceptLoop). s.taken ++ (laws.items s.conn_ch ++ in_hand p)) (sym e)
        ∙ v.in_order;
    each = v.each;
    size = b.slots_same ∙ v.size;
    bounded =
        omega (arith, ap length b.holds, length-snoc (laws.items s.conn_ch) fd, v.size, v.bounded);
    over = λ g. absurd (ground (arith, v.over g));
    team = v.team;
  }

  push-Inv :
      {n m : ℕ} {s : Server C} (fd : ℕ) (r : ChannelOpStatus × C.Chan)
      → Inv laws n m s
      → s.loop ≡ pushing fd
      → push C fd s.conn_ch ≡ some r
      → Inv laws n m (after_push C fd r s)
  push-Inv {n} {m} {s} fd r v e p =
      elim (push_cases laws fd s.conn_ch (v.channel_open ∙ ap is_ended e)) [
        | inl (ch, q, b, room) ↦
            subst (λ (x : ChannelOpStatus × C.Chan). Inv laws n m (after_push C fd x s))
              (same_push p q) (pushed-Inv fd ch v e b room)
        | inr (q, full) ↦ absurd (ground (arith, p, q))
      ]

  swapped :
      {n : ℕ} {ws : List Worker} (xs : List Worker) (w w' : Worker) (ys : List Worker)
      → ws ≡ xs ++ w ∷ ys
      → length ws ≡ n
      → length (xs ++ w' ∷ ys) ≡ n
  swapped xs w w' ys e l =
      omega (arith, ap length e, length-append xs (w ∷ ys), length-append xs (w' ∷ ys))

  -- A worker takes the front of the channel.
  popped-Inv :
      {n m : ℕ} {s : Server C} (xs ys : List Worker) (fd : ℕ) (fds : List ℕ) (ch : C.Chan)
      → Inv laws n m s
      → s.workers ≡ xs ++ popping ∷ ys
      → laws.items s.conn_ch ≡ fd ∷ fds
      → Becomes laws s.conn_ch fds ch
      → Inv laws n m (after_pop C xs ys (success, some fd, ch) s)
  unfolding after_pop
  popped-Inv {s = s} xs ys fd fds ch v e i b = record {
    channel_open = b.closed_same ∙ v.channel_open;
    in_order =
        append_assoc s.taken (fd ∷ []) (laws.items ch ++ in_hand s.loop)
        ∙ ap (λ (l : List ℕ). s.taken ++ (fd ∷ (l ++ in_hand s.loop))) b.holds
        ∙ ap (λ (l : List ℕ). s.taken ++ (l ++ in_hand s.loop)) (sym i)
        ∙ v.in_order;
    each = λ id. omega (
      arith,
      v.each id,
      count-append id s.taken (fd ∷ []),
      ap (λ (ws : List Worker). count id (handled ws)) e,
      count-handled id xs popping ys,
      count-handled id xs (handling fd) ys,
    );
    size = b.slots_same ∙ v.size;
    bounded = omega (arith, v.bounded, ap length i, ap length b.holds);
    over = λ g. absurd (
        ground (
          arith,
          gone_in-append xs (handling fd) ys,
          gone_in-append xs popping ys,
          ap gone_in e,
          v.over,
          i,
        ));
    team = swapped xs popping (handling fd) ys e v.team;
  }

  -- A worker finds the channel closed.
  left-Inv :
      {n m : ℕ} {s : Server C} (xs ys : List Worker)
      → Inv laws n m s
      → s.workers ≡ xs ++ popping ∷ ys
      → laws.items s.conn_ch ≡ []
      → C.is_closed s.conn_ch ≡ true
      → Inv laws n m (after_pop C xs ys (closed, none, s.conn_ch) s)
  unfolding after_pop
  left-Inv {s = s} xs ys v e i c = record {
    channel_open = v.channel_open;
    in_order = v.in_order;
    each = λ id. omega (
      arith,
      v.each id,
      ap (λ (ws : List Worker). count id (handled ws)) e,
      count-handled id xs popping ys,
      count-handled id xs gone ys,
    );
    size = v.size;
    bounded = v.bounded;
    over = λ g. (sym v.channel_open ∙ c, i);
    team = swapped xs popping gone ys e v.team;
  }

  pop-Inv :
      {n m : ℕ} {s : Server C} (xs ys : List Worker) (r : ChannelOpStatus × Option ℕ × C.Chan)
      → Inv laws n m s
      → s.workers ≡ xs ++ popping ∷ ys
      → pop C s.conn_ch ≡ some r
      → Inv laws n m (after_pop C xs ys r s)
  pop-Inv {n} {m} {s} xs ys r v e p = elim (pop_cases laws s.conn_ch) [
    | inl (fd, fds, ch, i, q, b) ↦
        subst (λ (x : ChannelOpStatus × Option ℕ × C.Chan). Inv laws n m (after_pop C xs ys x s))
          (same_push p q) (popped-Inv xs ys fd fds ch v e i b)
    | inr (inl (q, i, o)) ↦ absurd (ground (arith, p, q))
    | inr (inr (q, i, c)) ↦
        subst (λ (x : ChannelOpStatus × Option ℕ × C.Chan). Inv laws n m (after_pop C xs ys x s))
          (same_push p q) (left-Inv xs ys v e i c)
  ]

  accepted-Inv :
      {n m : ℕ} {s : Server C} (fd : ℕ)
      → Inv laws n m s
      → s.loop ≡ accepting
      → Inv laws n m (record s { loop = pushing fd; accepted = s.accepted ++ (fd ∷ []) })
  accepted-Inv {s = s} fd v e = record {
    channel_open = v.channel_open ∙ ap is_ended e;
    in_order =
        sym (append_assoc s.taken (laws.items s.conn_ch) (fd ∷ []))
        ∙ ap (λ (l : List ℕ). (s.taken ++ l) ++ (fd ∷ [])) (sym (append-nil (laws.items s.conn_ch)))
        ∙ ap (λ (p : AcceptLoop). (s.taken ++ (laws.items s.conn_ch ++ in_hand p)) ++ (fd ∷ []))
            (sym e)
        ∙ ap (λ (l : List ℕ). l ++ (fd ∷ [])) v.in_order;
    each = v.each;
    size = v.size;
    bounded = v.bounded;
    over = λ g. absurd (ground (arith, v.over g));
    team = v.team;
  }

  failed-Inv :
      {n m : ℕ} {s : Server C}
      → Inv laws n m s
      → s.loop ≡ accepting
      → Inv laws n m (record s { loop = broken })
  failed-Inv {s = s} v e = record {
    channel_open = v.channel_open ∙ ap is_ended e;
    in_order =
        ap (λ (p : AcceptLoop). s.taken ++ (laws.items s.conn_ch ++ in_hand p)) (sym e)
        ∙ v.in_order;
    each = v.each;
    size = v.size;
    bounded = v.bounded;
    over = λ g. absurd (ground (arith, v.over g));
    team = v.team;
  }

  closed-Inv :
      {n m : ℕ} {s : Server C}
      → Inv laws n m s
      → s.loop ≡ broken
      → Inv laws n m (record s { conn_ch = close C s.conn_ch; loop = ended })
  unfolding close
  closed-Inv {s = s} v e = record {
    channel_open = laws.close-closed s.conn_ch;
    in_order =
        ap (λ (l : List ℕ). s.taken ++ (l ++ [])) (laws.close-items s.conn_ch)
        ∙ ap (λ (p : AcceptLoop). s.taken ++ (laws.items s.conn_ch ++ in_hand p)) (sym e)
        ∙ v.in_order;
    each = v.each;
    size = laws.close-slots s.conn_ch ∙ v.size;
    bounded = omega (arith, v.bounded, ap length (laws.close-items s.conn_ch));
    over = λ g. (refl, laws.close-items s.conn_ch ∙ (v.over g).1);
    team = v.team;
  }

  hung_up-Inv :
      {n m : ℕ} {s : Server C} (xs ys : List Worker) (fd : ℕ)
      → Inv laws n m s
      → s.workers ≡ xs ++ handling fd ∷ ys
      → Inv laws n m (record s { workers = xs ++ finishing fd ∷ ys })
  hung_up-Inv {s = s} xs ys fd v e = record {
    channel_open = v.channel_open;
    in_order = v.in_order;
    each = λ id. omega (
      arith,
      v.each id,
      ap (λ (ws : List Worker). count id (handled ws)) e,
      count-handled id xs (finishing fd) ys,
      count-handled id xs (handling fd) ys,
    );
    size = v.size;
    bounded = v.bounded;
    over = λ g. v.over (
        ap gone_in e
        ∙ gone_in-append xs (handling fd) ys
        ∙ sym (gone_in-append xs (finishing fd) ys)
        ∙ g);
    team = swapped xs (handling fd) (finishing fd) ys e v.team;
  }

  handled-Inv :
      {n m : ℕ} {s : Server C} (xs ys : List Worker) (fd : ℕ)
      → Inv laws n m s
      → s.workers ≡ xs ++ finishing fd ∷ ys
      → Inv laws n m
          (record s { workers = xs ++ popping ∷ ys; closed_fds = s.closed_fds ++ (fd ∷ []) })
  handled-Inv {s = s} xs ys fd v e = record {
    channel_open = v.channel_open;
    in_order = v.in_order;
    each = λ id. omega (
      arith,
      v.each id,
      count-append id s.closed_fds (fd ∷ []),
      ap (λ (ws : List Worker). count id (handled ws)) e,
      count-handled id xs popping ys,
      count-handled id xs (finishing fd) ys,
    );
    size = v.size;
    bounded = v.bounded;
    over = λ g. v.over (
        ap gone_in e
        ∙ gone_in-append xs (finishing fd) ys
        ∙ sym (gone_in-append xs popping ys)
        ∙ g);
    team = swapped xs (finishing fd) popping ys e v.team;
  }

  Step-Inv : {n m : ℕ} {s t : Server C} → Step C s t → Inv laws n m s → Inv laws n m t
  Step-Inv (accepts fd e) v = accepted-Inv fd v e
  Step-Inv (fails e) v = failed-Inv v e
  Step-Inv (pushes fd r e p) v = push-Inv fd r v e p
  Step-Inv (closes e) v = closed-Inv v e
  Step-Inv (pops xs ys r e p) v = pop-Inv xs ys r v e p
  Step-Inv (hangs_up xs ys fd e) v = hung_up-Inv xs ys fd v e
  Step-Inv (handles xs ys fd e) v = handled-Inv xs ys fd v e

  poppers-gone : (n : ℕ) → gone_in (poppers C n) ≡ false
  poppers-gone ℕ.zero = refl
  poppers-gone (suc n) = poppers-gone n

  poppers-length : (n : ℕ) → length (poppers C n) ≡ n
  poppers-length ℕ.zero = refl
  poppers-length (suc n) = ap suc (poppers-length n)

  poppers-handled : (n : ℕ) → handled (poppers C n) ≡ []
  poppers-handled ℕ.zero = refl
  poppers-handled (suc n) = poppers-handled n

  started-Inv :
      (n capacity : ℕ) → 1 ≤ capacity → Inv laws n (bit_ceil (capacity + 1)) (started C n capacity)
  unfolding started
  started-Inv n capacity one =
      let (none_yet, slots, opened) = new_channel laws capacity one in
      record {
        channel_open = opened;
        in_order = ap (λ (l : List ℕ). l ++ []) none_yet;
        each = λ id. omega (arith, ap (count id) (poppers-handled n));
        size = slots;
        bounded = omega (arith, ap length none_yet, bit_ceil-reaches (capacity + 1));
        over = λ g. absurd (ground (arith, poppers-gone n));
        team = poppers-length n;
      }

  pub Reach-Inv :
      (n capacity : ℕ) {t : Server C}
      → 1 ≤ capacity
      → Reach C (started C n capacity) t
      → Inv laws n (bit_ceil (capacity + 1)) t
  Reach-Inv n capacity one here = started-Inv n capacity one
  Reach-Inv n capacity one (later r st) = Step-Inv st (Reach-Inv n capacity one r)
