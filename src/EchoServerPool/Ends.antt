-- ===== src/EchoServerPool/Ends.antt =====
-- Each connection is in one place, and the server goes on until all are closed and all fibers returned.
use fiberexec.Base.{
  ℕ, ◌+◌, ◌*◌, ◌≤◌, ◌<◌, ◌≡◌, refl, sym, subst, ap, ◌∙◌, ◌⊎◌, inl, inr, false, List, [], ◌∷◌, ◌++◌,
  Option, some, length, length-snoc, arith, bit_ceil, bit_ceil-reaches,
}
use mathlib.Core.List.{append-nil}
use fiberexec.Base.Range.{count}
use fiberexec.Channel.Boost.{BoostChannel, IsDocumented}
use fiberexec.Channel.{ChannelOpStatus, push, pop, close}
use fiberexec.EchoServerPool.{
  AcceptLoop, accepting, broken, ended, pushing, Worker, popping, gone, handling, finishing, Server,
  started, after_push, after_pop, Step, accepts, fails, pushes, closes, pops, hangs_up, handles,
  Reach, in_hand, handled,
}
use fiberexec.EchoServerPool.Connections.{is_ended, Inv, push_cases, pop_cases}
use fiberexec.EchoServerPool.Moves.{same_push, Reach-Inv}
use fiberexec.EchoServerPool.Progress.{by_client, GoesOn, IsOver, IsIdle, IsServing, next_step}

abbrev loop_left : AcceptLoop → ℕ
loop_left (pushing fd) = 6
loop_left accepting = 2
loop_left broken = 1
loop_left ended = 0

abbrev worker_left : Worker → ℕ
worker_left (handling fd) = 3
worker_left (finishing fd) = 3
worker_left popping = 1
worker_left gone = 0

abbrev workers_left : List Worker → ℕ
workers_left [] = 0
workers_left (w ∷ ws) = worker_left w + workers_left ws

workers_left-append :
    (xs : List Worker) (w : Worker) (ys : List Worker)
    → workers_left (xs ++ w ∷ ys) ≡ workers_left xs + worker_left w + workers_left ys
workers_left-append [] w ys = omega arith
workers_left-append (x ∷ xs) w ys = omega (arith, workers_left-append xs w ys)

module _ {C : BoostChannel ℕ} (laws : IsDocumented C) where
  -- What is left to do with the connections there are.
  abbrev pub work : Server C → ℕ
  work s = loop_left s.loop + 3 * length (laws.items s.conn_ch) + workers_left s.workers

  pushed-nearer :
      {n m : ℕ} {s : Server C} (fd : ℕ) (r : ChannelOpStatus × C.Chan)
      → Inv laws n m s
      → s.loop ≡ pushing fd
      → push C fd s.conn_ch ≡ some r
      → work (after_push C fd r s) < work s
  unfolding after_push
  pushed-nearer {s = s} fd r v e p =
      elim (push_cases laws fd s.conn_ch (v.channel_open ∙ ap is_ended e)) [
        | inl (ch, q, b, room) ↦
            subst (λ (x : ChannelOpStatus × C.Chan). work (after_push C fd x s) < work s)
              (same_push p q)
              (omega
                (arith, ap length b.holds, length-snoc (laws.items s.conn_ch) fd, ap loop_left e))
        | inr (q, full) ↦ absurd (ground (arith, p, q))
      ]

  popped-nearer :
      (s : Server C) (xs ys : List Worker) (r : ChannelOpStatus × Option ℕ × C.Chan)
      → s.workers ≡ xs ++ popping ∷ ys
      → pop C s.conn_ch ≡ some r
      → work (after_pop C xs ys r s) < work s
  unfolding after_pop
  popped-nearer s xs ys r e p = elim (pop_cases laws s.conn_ch) [
    | inl (fd, fds, ch, i, q, b) ↦
        subst (λ (x : ChannelOpStatus × Option ℕ × C.Chan). work (after_pop C xs ys x s) < work s)
          (same_push p q)
          (omega (
            arith,
            ap length b.holds,
            ap length i,
            ap workers_left e,
            workers_left-append xs popping ys,
            workers_left-append xs (handling fd) ys,
          ))
    | inr (inl (q, i, o)) ↦ absurd (ground (arith, p, q))
    | inr (inr (q, i, c)) ↦
        subst (λ (x : ChannelOpStatus × Option ℕ × C.Chan). work (after_pop C xs ys x s) < work s)
          (same_push p q)
          (omega (
            arith,
            ap workers_left e,
            workers_left-append xs popping ys,
            workers_left-append xs gone ys,
          ))
  ]

  nearer :
      {n m : ℕ} {s t : Server C} (st : Step C s t)
      → Inv laws n m s
      → by_client st ≡ false
      → work t < work s
  unfolding close
  nearer (accepts fd e) v a = absurd (ground arith)
  nearer (fails e) v a = absurd (ground arith)
  nearer (pushes fd r e p) v a = pushed-nearer fd r v e p
  nearer {s = s} (closes e) v a =
      omega (arith, ap loop_left e, ap length (laws.close-items s.conn_ch))
  nearer {s = s} (pops xs ys r e p) v a = popped-nearer s xs ys r e p
  nearer (hangs_up xs ys fd e) v a = absurd (ground arith)
  nearer (handles xs ys fd e) v a = omega (
    arith,
    ap workers_left e,
    workers_left-append xs (finishing fd) ys,
    workers_left-append xs popping ys,
  )

  over_lem :
      {n m : ℕ} {s : Server C}
      → Inv laws n m s
      → IsOver laws s
      → (s.taken ≡ s.accepted) × ((id : ℕ) → count id s.closed_fds ≡ count id s.accepted)
  over_lem {s = s} v o =
      (all, λ id. omega (arith, v.each id, ap (count id) all, ap (count id) o.none_handled))
    where
      all : s.taken ≡ s.accepted
      all =
          sym (append-nil s.taken)
          ∙ ap (λ (l : List ℕ). s.taken ++ (l ++ [])) (sym o.no_items)
          ∙ ap (λ (p : AcceptLoop). s.taken ++ (laws.items s.conn_ch ++ in_hand p)) (sym o.loop)
          ∙ v.in_order

  -- In every state that the server reaches from its start, with any number of workers and a capacity of
  -- at least one: the descriptors that were accepted are, in order, those that workers took, those in
  -- the channel and the one that the accept loop is about to push; each that was taken is handled by
  -- one worker or was closed, once; and the channel holds fewer than the next power of two above its
  -- capacity.
  pub each_connection_once :
      (n capacity : ℕ) {t : Server C}
      → 1 ≤ capacity
      → Reach C (started C n capacity) t
      → (t.taken ++ (laws.items t.conn_ch ++ in_hand t.loop) ≡ t.accepted)
        × ((id : ℕ) → count id t.taken ≡ count id (handled t.workers) + count id t.closed_fds)
        × (length (laws.items t.conn_ch) < bit_ceil (capacity + 1))
  each_connection_once n capacity some_room r =
      let v = Reach-Inv laws n capacity some_room r in
      (v.in_order, v.each, omega (arith, v.bounded))

  -- With at least one worker and a capacity of at least one, in every state that the server reaches:
  -- all fibers have returned, or the accept loop waits for a client with nothing queued or handled, or
  -- a worker waits for the client of its connection, or a step is possible that waits for no client;
  -- so a full or an empty channel stops the server only while a client of one of its workers is awaited;
  -- every step that waits for no client leaves less work; and once all fibers have returned, every
  -- accepted connection was taken, in order, and closed, once.
  pub server_ends :
      (n capacity : ℕ) {t : Server C}
      → 1 ≤ n
      → 1 ≤ capacity
      → Reach C (started C n capacity) t
      → (IsOver laws t ⊎ IsIdle laws t ⊎ IsServing laws t ⊎ GoesOn t)
        × ((u : Server C) (st : Step C t u) → by_client st ≡ false → work u < work t)
        × (IsOver laws t
            → (t.taken ≡ t.accepted) × ((id : ℕ) → count id t.closed_fds ≡ count id t.accepted))
  server_ends n capacity {t} one some_room r =
      let v = Reach-Inv laws n capacity some_room r in
      (
        next_step laws t.loop v one (omega (arith, bit_ceil-reaches (capacity + 1))) refl,
        λ u st. nearer st v,
        over_lem v,
      )
