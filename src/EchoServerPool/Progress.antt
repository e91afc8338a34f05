-- ===== src/EchoServerPool/Progress.antt =====
-- In no state do the accept loop and the workers wait for one another.
use fiberexec.Base.{
  ℕ, ◌≤◌, ◌≡◌, refl, ap, ◌∙◌, ◌⊎◌, inl, inr, Bool, true, false, ◌&&◌, List, [], ◌∷◌, ◌++◌, length,
  arith,
}
use fiberexec.Channel.Boost.{BoostChannel, IsDocumented}
use fiberexec.EchoServerPool.{
  AcceptLoop, accepting, broken, ended, pushing, Worker, popping, gone, handling, finishing, Server,
  Step, accepts, fails, pushes, closes, pops, hangs_up, handles, handled,
}
use fiberexec.EchoServerPool.Connections.{is_ended, is_gone, gone_in, Inv, push_cases, pop_cases}

abbrev pub all_gone : List Worker → Bool
all_gone [] = true
all_gone (w ∷ ws) = is_gone w && all_gone ws

-- A worker with this in its hands.
abbrev pub Has : Worker → List Worker → Type 0
Has w ws = (xs : List Worker) × (ys : List Worker) × (ws ≡ xs ++ w ∷ ys)

Has-cons : {w : Worker} {ws : List Worker} (x : Worker) → Has w ws → Has w (x ∷ ws)
Has-cons x (xs, ys, e) = (x ∷ xs, ys, ap (◌∷◌ x) e)

-- Someone is done with a client, or someone waits for one, or nobody handles a connection and someone
-- waits in pop, or all are gone.
abbrev Team : List Worker → Type 0
Team ws =
    ((fd : ℕ) × Has (finishing fd) ws)
    ⊎ ((fd : ℕ) × Has (handling fd) ws)
    ⊎ ((handled ws ≡ []) × Has popping ws)
    ⊎ ((all_gone ws ≡ true) × (handled ws ≡ []))

Team-cons :
    (w : Worker) (ws : List Worker)
    → handled (w ∷ ws) ≡ handled ws
    → is_gone w ≡ true
    → Team ws
    → Team (w ∷ ws)
Team-cons w ws same g (inl (fd, h)) = inl (fd, Has-cons w h)
Team-cons w ws same g (inr (inl (fd, h))) = inr (inl (fd, Has-cons w h))
Team-cons w ws same g (inr (inr (inl (none_handled, h)))) =
    inr (inr (inl (same ∙ none_handled, Has-cons w h)))
Team-cons w ws same g (inr (inr (inr (all, none_handled)))) =
    inr (inr (inr (ground arith, same ∙ none_handled)))

team : (ws : List Worker) → Team ws
team [] = inr (inr (inr (refl, refl)))
team (finishing fd ∷ ws) = inl (fd, ([], ws, refl))
team (handling fd ∷ ws) = elim (team ws) [
  | inl (c, h) ↦ inl (c, Has-cons (handling fd) h)
  | inr rest ↦ inr (inl (fd, ([], ws, refl)))
]
team (popping ∷ ws) = elim (team ws) [
  | inl (fd, h) ↦ inl (fd, Has-cons popping h)
  | inr (inl (fd, h)) ↦ inr (inl (fd, Has-cons popping h))
  | inr (inr (inl (none_handled, h))) ↦ inr (inr (inl (none_handled, ([], ws, refl))))
  | inr (inr (inr (all, none_handled))) ↦ inr (inr (inl (none_handled, ([], ws, refl))))
]
team (gone ∷ ws) = Team-cons gone ws refl refl (team ws)

all_gone-some : (ws : List Worker) → 1 ≤ length ws → all_gone ws ≡ true → gone_in ws ≡ true
all_gone-some [] h e = absurd (omega arith)
all_gone-some (gone ∷ ws) h e = refl
all_gone-some (popping ∷ ws) h e = absurd (ground arith)
all_gone-some (handling fd ∷ ws) h e = absurd (ground arith)
all_gone-some (finishing fd ∷ ws) h e = absurd (ground arith)

module _ {C : BoostChannel ℕ} where
  -- The steps that wait for a client: it connects, or the listening socket is shut down, or it is done
  -- with its connection.
  abbrev pub by_client : {s t : Server C} → Step C s t → Bool
  by_client (accepts _ _) = true
  by_client (fails _) = true
  by_client (pushes _ _ _ _) = false
  by_client (closes _) = false
  by_client (pops _ _ _ _ _) = false
  by_client (hangs_up _ _ _ _) = true
  by_client (handles _ _ _ _) = false

  abbrev pub GoesOn : Server C → Type 0
  GoesOn s = (t : Server C) × (st : Step C s t) × (by_client st ≡ false)

module _ {C : BoostChannel ℕ} (laws : IsDocumented C) where
  -- All fibers have returned; or all wait, and the next step is a client's.
  pub record IsOver (s : Server C) : Type 0 where
    pub loop : s.loop ≡ ended
    pub workers : all_gone s.workers ≡ true
    pub none_handled : handled s.workers ≡ []
    pub no_items : laws.items s.conn_ch ≡ []

  pub record IsIdle (s : Server C) : Type 0 where
    pub loop : s.loop ≡ accepting
    pub none_handled : handled s.workers ≡ []
    pub no_items : laws.items s.conn_ch ≡ []

  -- A worker waits for the client of its connection.
  abbrev pub IsServing : Server C → Type 0
  IsServing s = (fd : ℕ) × Has (handling fd) s.workers

  abbrev Progress : Server C → Type 0
  Progress s = IsOver s ⊎ IsIdle s ⊎ IsServing s ⊎ GoesOn s

  goes_on : {s t : Server C} (st : Step C s t) → by_client st ≡ false → Progress s
  goes_on {t = t} st own = inr (inr (inr (t, st, own)))

  not_gone :
      {n m : ℕ} {s : Server C}
      → Inv laws n m s
      → 1 ≤ n
      → is_ended s.loop ≡ false
      → all_gone s.workers ≡ true
      → (v : Type 0) → v
  not_gone {s = s} v one l g V =
      absurd (ground (arith, v.over (all_gone-some s.workers (omega (arith, v.team)) g)))

  -- The loop is at `p`, which is not a push that waits: a worker goes on, or all wait.
  worker_next :
      {n m : ℕ} {s : Server C} (p : AcceptLoop)
      → Inv laws n m s
      → 1 ≤ n
      → s.loop ≡ p
      → (p ≡ accepting) ⊎ (p ≡ ended)
      → Progress s
  worker_next {s = s} p v one e w = elim (team s.workers) [
    | inl (fd, (xs, ys, h)) ↦ goes_on (handles xs ys fd h) refl
    | inr (inl serving) ↦ inr (inr (inl serving))
    | inr (inr (inl (none_handled, (xs, ys, h)))) ↦ elim (pop_cases laws s.conn_ch) [
      | inl (fd, fds, ch, i, q, b) ↦ goes_on (pops xs ys _ h q) refl
      | inr (inl (q, i, o)) ↦ elim w [
        | inl a ↦ inr (inl (record { loop = e ∙ a; none_handled = none_handled; no_items = i }))
        | inr a ↦ absurd (ground (arith, v.channel_open, ap is_ended (e ∙ a)))
      ]
      | inr (inr (q, i, c)) ↦ goes_on (pops xs ys _ h q) refl
    ]
    | inr (inr (inr (all, none_handled))) ↦ elim w [
      | inl a ↦ not_gone v one (ap is_ended (e ∙ a)) all _
      | inr a ↦ inl (record {
        loop = e ∙ a;
        workers = all;
        none_handled = none_handled;
        no_items = (v.over (all_gone-some s.workers (omega (arith, v.team)) all)).1;
      })
    ]
  ]

  -- A push that waits: the channel is full, and a worker will take an item.
  pushing_next :
      {n m : ℕ} {s : Server C} (fd : ℕ)
      → Inv laws n m s
      → 1 ≤ n
      → 2 ≤ m
      → s.loop ≡ pushing fd
      → Progress s
  pushing_next {s = s} fd v one two e =
      elim (push_cases laws fd s.conn_ch (v.channel_open ∙ ap is_ended e)) [
        | inl (ch, q, b, room) ↦ goes_on (pushes fd _ e q) refl
        | inr (q, full) ↦ elim (team s.workers) [
          | inl (c, (xs, ys, h)) ↦ goes_on (handles xs ys c h) refl
          | inr (inl serving) ↦ inr (inr (inl serving))
          | inr (inr (inl (none_handled, (xs, ys, h)))) ↦ elim (pop_cases laws s.conn_ch) [
            | inl (c, fds, ch, i, p, b) ↦ goes_on (pops xs ys _ h p) refl
            | inr (inl (p, i, o)) ↦ absurd (omega (arith, full, v.size, ap length i))
            | inr (inr (p, i, c)) ↦ absurd (omega (arith, full, v.size, ap length i))
          ]
          | inr (inr (inr (all, none_handled))) ↦ not_gone v one (ap is_ended e) all _
        ]
      ]

  pub next_step :
      {n m : ℕ} {s : Server C} (p : AcceptLoop)
      → Inv laws n m s
      → 1 ≤ n
      → 2 ≤ m
      → s.loop ≡ p
      → Progress s
  next_step accepting v one two e = worker_next accepting v one e (inl refl)
  next_step broken v one two e = goes_on (closes e) refl
  next_step ended v one two e = worker_next ended v one e (inr refl)
  next_step (pushing fd) v one two e = pushing_next fd v one two e
