-- ===== src/EchoServerPool.antt =====
-- examples/echo_server_pool.cpp: an accept loop that pushes connections into a channel, and workers that
-- pop and handle them. Their fibers run on several threads; a step is what one of them does until it
-- suspends or another could see it.
pub mod Connections
pub mod Moves
pub mod Progress
pub mod Echo
pub mod Ends
use fiberexec.Base.{
  ℕ, suc, ◌+◌, ◌≡◌, Bool, true, false, List, [], ◌∷◌, ◌++◌, Option, none, some, length,
}
use fiberexec.Channel.Boost.{BoostChannel}
use fiberexec.Channel.{
  ChannelOpStatus, success, empty, full, closed, timeout, channel, push, pop, close,
}

-- The accept loop: in async_accept, in push with a descriptor, out of its loop, and returned.
pub data AcceptLoop : Type 0 where
  accepting broken ended : AcceptLoop
  pushing : (fd : ℕ) → AcceptLoop

-- A worker: in pop, in the loop of handle_connection, where it waits for its client, after that loop,
-- and returned.
pub data Worker : Type 0 where
  popping gone : Worker
  handling finishing : (fd : ℕ) → Worker

module _ (C : BoostChannel ℕ) where
  -- `accepted`, `taken` and `closed_fds` are the descriptors that async_accept returned, that workers
  -- popped and that ::close was called on, in order.
  pub record Server : Type 0 where
    pub conn_ch : C.Chan
    pub loop : AcceptLoop
    pub workers : List Worker
    pub accepted : List ℕ
    pub taken : List ℕ
    pub closed_fds : List ℕ

  abbrev pub poppers : ℕ → List Worker
  poppers ℕ.zero = []
  poppers (suc n) = popping ∷ poppers n

  -- `main` once its fibers are started.
  unfoldable pub started : (workers capacity : ℕ) → Server
  unfolding channel
  started workers capacity = record {
    conn_ch = channel C capacity;
    loop = accepting;
    workers = poppers workers;
    accepted = [];
    taken = [];
    closed_fds = [];
  }

  -- After `conn_ch.push(fd)`.
  unfoldable pub after_push : (fd : ℕ) → ChannelOpStatus × C.Chan → Server → Server
  after_push fd (success, ch) s = record s { conn_ch = ch; loop = accepting }
  after_push fd (_, ch) s = record s {
    conn_ch = ch;
    loop = broken;
    closed_fds = s.closed_fds ++ (fd ∷ []);
  }

  -- After `conn_ch.pop(fd)` of the worker between `xs` and `ys`. With a success it writes a descriptor.
  unfoldable pub after_pop :
      (xs ys : List Worker) → ChannelOpStatus × Option ℕ × C.Chan → Server → Server
  after_pop xs ys (success, some fd, ch) s = record s {
    conn_ch = ch;
    workers = xs ++ handling fd ∷ ys;
    taken = s.taken ++ (fd ∷ []);
  }
  after_pop xs ys (_, _, ch) s = record s { conn_ch = ch; workers = xs ++ gone ∷ ys }

  -- The loop of `handle_connection` ends when its client is done or an operation fails; the descriptor is
  -- closed however it ended.
  pub data Step (s : Server) : Server → Type 0 where
    accepts :
        (fd : ℕ)
        → s.loop ≡ accepting
        → Step s (record s { loop = pushing fd; accepted = s.accepted ++ (fd ∷ []) })
    fails : s.loop ≡ accepting → Step s (record s { loop = broken })
    pushes :
        (fd : ℕ) (r : ChannelOpStatus × C.Chan)
        → s.loop ≡ pushing fd
        → push C fd s.conn_ch ≡ some r
        → Step s (after_push fd r s)
    closes : s.loop ≡ broken → Step s (record s { conn_ch = close C s.conn_ch; loop = ended })
    pops :
        (xs ys : List Worker) (r : ChannelOpStatus × Option ℕ × C.Chan)
        → s.workers ≡ xs ++ popping ∷ ys
        → pop C s.conn_ch ≡ some r
        → Step s (after_pop xs ys r s)
    hangs_up :
        (xs ys : List Worker) (fd : ℕ)
        → s.workers ≡ xs ++ handling fd ∷ ys
        → Step s (record s { workers = xs ++ finishing fd ∷ ys })
    handles :
        (xs ys : List Worker) (fd : ℕ)
        → s.workers ≡ xs ++ finishing fd ∷ ys
        → Step s (record s { workers = xs ++ popping ∷ ys; closed_fds = s.closed_fds ++ (fd ∷ []) })

  pub data Reach (s : Server) : Server → Type 0 where
    here : Reach s s
    later : {t u : Server} → Reach s t → Step t u → Reach s u

-- The descriptor that the accept loop has in its hand, and those that workers handle.
abbrev pub in_hand : AcceptLoop → List ℕ
in_hand (pushing fd) = fd ∷ []
in_hand _ = []

abbrev pub handled : List Worker → List ℕ
handled [] = []
handled (handling fd ∷ ws) = fd ∷ handled ws
handled (finishing fd ∷ ws) = fd ∷ handled ws
handled (popping ∷ ws) = handled ws
handled (gone ∷ ws) = handled ws
