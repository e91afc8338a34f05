-- ===== src/EchoServerPool/Connections.antt =====
-- Where each accepted descriptor is: the steps of the accept loop and the workers, on the channel's laws.
use fiberexec.Base.{
  ℕ, ◌+◌, ◌≤◌, ◌<◌, ◌≡◌, refl, ◌⊎◌, inl, inr, Bool, true, false, ◌||◌, List, [], ◌∷◌, ◌++◌, none,
  some, length, arith, dec_lt,
}
use fiberexec.Base.Range.{count}
use fiberexec.Channel.Boost.{BoostChannel, IsDocumented}
use fiberexec.Channel.{success, closed, push, pop}
use fiberexec.Channel.Fifo.{Becomes, push_lem, pop_lem}
use fiberexec.EchoServerPool.{
  AcceptLoop, accepting, broken, ended, pushing, Worker, popping, gone, handling, finishing, Server,
  in_hand, handled,
}

abbrev pub is_ended : AcceptLoop → Bool
is_ended ended = true
is_ended accepting = false
is_ended broken = false
is_ended (pushing fd) = false

abbrev pub is_gone : Worker → Bool
is_gone gone = true
is_gone popping = false
is_gone (handling fd) = false
is_gone (finishing fd) = false

abbrev pub gone_in : List Worker → Bool
gone_in [] = false
gone_in (w ∷ ws) = is_gone w || gone_in ws

pub gone_in-append :
    (xs : List Worker) (w : Worker) (ys : List Worker)
    → gone_in (xs ++ w ∷ ys) ≡ is_gone w || (gone_in xs || gone_in ys)
gone_in-append [] w ys = refl
gone_in-append (x ∷ xs) w ys = let rest = gone_in-append xs w ys in ground arith

pub count-handled :
    (id : ℕ) (xs : List Worker) (w : Worker) (ys : List Worker)
    → count id (handled (xs ++ w ∷ ys))
      ≡ count id (handled xs) + count id (handled (w ∷ [])) + count id (handled ys)
count-handled id [] popping ys = omega arith
count-handled id [] gone ys = omega arith
count-handled id [] (handling fd) ys = omega arith
count-handled id [] (finishing fd) ys = omega arith
count-handled id (popping ∷ xs) w ys = count-handled id xs w ys
count-handled id (gone ∷ xs) w ys = count-handled id xs w ys
count-handled id (handling fd ∷ xs) w ys = omega (arith, count-handled id xs w ys)
count-handled id (finishing fd ∷ xs) w ys = omega (arith, count-handled id xs w ys)

module _ {C : BoostChannel ℕ} (laws : IsDocumented C) where
  pub record Inv (n slots : ℕ) (s : Server C) : Type 0 where
    pub channel_open : C.is_closed s.conn_ch ≡ is_ended s.loop
    pub in_order : s.taken ++ (laws.items s.conn_ch ++ in_hand s.loop) ≡ s.accepted
    pub each : (id : ℕ) → count id s.taken ≡ count id (handled s.workers) + count id s.closed_fds
    pub size : laws.slots s.conn_ch ≡ slots
    pub bounded : length (laws.items s.conn_ch) + 1 ≤ slots
    pub over : gone_in s.workers ≡ true → (is_ended s.loop ≡ true) × (laws.items s.conn_ch ≡ [])
    pub team : length s.workers ≡ n

  -- A push on the open channel: it appends, or there is no room and it waits.
  pub push_cases :
      (fd : ℕ) (ch : C.Chan)
      → C.is_closed ch ≡ false
      → ((ch' : C.Chan) × (push C fd ch ≡ some (success, ch'))
          × Becomes laws ch (laws.items ch ++ (fd ∷ [])) ch'
          × (length (laws.items ch) + 1 < laws.slots ch))
        ⊎ ((push C fd ch ≡ none) × (laws.slots ch ≤ length (laws.items ch) + 1))
  unfolding push
  push_cases fd ch opened = elim (dec_lt (length (laws.items ch) + 1) (laws.slots ch)) [
    | yes room ↦ let (ch', p, b) = push_lem laws fd ch opened room in inl (ch', p, b, room)
    | no full ↦ inr (rw (push, laws.push-waits fd ch opened (omega arith)) refl, omega arith)
  ]

  -- A pop: it takes the front, or waits, or finds the channel closed.
  pub pop_cases :
      (ch : C.Chan)
      → ((fd : ℕ) × (fds : List ℕ) × (ch' : C.Chan) × (laws.items ch ≡ fd ∷ fds)
          × (pop C ch ≡ some (success, some fd, ch'))
          × Becomes laws ch fds ch')
        ⊎ ((pop C ch ≡ none) × (laws.items ch ≡ []) × (C.is_closed ch ≡ false))
        ⊎ ((pop C ch ≡ some (closed, none, ch)) × (laws.items ch ≡ []) × (C.is_closed ch ≡ true))
  unfolding pop
  pop_cases ch = go (laws.items ch) (C.is_closed ch) refl refl
    where
      go :
          (l : List ℕ) (b : Bool)
          → laws.items ch ≡ l
          → C.is_closed ch ≡ b
          → ((fd : ℕ) × (fds : List ℕ) × (ch' : C.Chan) × (laws.items ch ≡ fd ∷ fds)
              × (pop C ch ≡ some (success, some fd, ch'))
              × Becomes laws ch fds ch')
            ⊎ ((pop C ch ≡ none) × (laws.items ch ≡ []) × (C.is_closed ch ≡ false))
            ⊎ ((pop C ch ≡ some (closed, none, ch))
                × (laws.items ch ≡ [])
                × (C.is_closed ch ≡ true))
      go (fd ∷ fds) b e o =
          let (ch', p, c) = pop_lem laws fd fds ch e in inl (fd, fds, ch', e, p, c)
      go [] false e o = inr (inl (rw (pop, laws.pop-waits ch e o) refl, e, o))
      go [] true e o = inr (inr (rw (pop, laws.pop-closed ch e o) refl, e, o))
