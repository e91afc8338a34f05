-- ===== src/FiberOps/Stops.antt =====
-- The stop callbacks of a wait: what they queue for cancellation, and what they leave alone.
use mathlib.Core.List.{append-nil}
use fiberexec.Base.{
  ℕ, suc, ◌≡◌, sym, ◌∙◌, Bool, true, false, ◌||◌, List, [], ◌∷◌, ◌++◌, append-snoc,
}
use fiberexec.Runtime.Uring.{Kernel}
use fiberexec.Runtime.Thread.{ok, Thread, when}
use fiberexec.FiberOps.{
  request_cancel, request_cancels, watch_stops, StopToken, stop_requested, stop_during,
}

-- A count that grew by one for each element.
abbrev pub grown : ℕ → List ℕ → ℕ
grown n [] = n
grown n (p ∷ ps) = grown (suc n) ps

pub request_cancels_lem :
    (ps : List ℕ) (k : Kernel) (t : Thread)
    → request_cancels ps k t
      ≡ (ok tt, record t { cancel_queue = t.cancel_queue ++ ps; notified = grown t.notified ps })
unfolding request_cancels request_cancel
request_cancels_lem [] k t =
    λ i. (ok tt, record t { cancel_queue = sym (append-nil t.cancel_queue) i })
request_cancels_lem (p ∷ ps) k t = request_cancels_lem ps k _ ∙ (λ i. (
  ok tt,
  record t {
    cancel_queue = append-snoc t.cancel_queue p ps i;
    notified = grown t.notified (p ∷ ps);
  },
))

abbrev pub if_stopped : Bool → List ℕ → List ℕ
if_stopped true ps = ps
if_stopped false ps = []

when-cancels :
    (b : Bool) (ps : List ℕ) (k : Kernel) (t : Thread)
    → when b (request_cancels ps) k t ≡ (
      ok tt,
      record t {
        cancel_queue = t.cancel_queue ++ if_stopped b ps;
        notified = grown t.notified (if_stopped b ps);
      },
    )
when-cancels true ps k t = request_cancels_lem ps k t
when-cancels false ps k t =
    λ i. (ok tt, record t { cancel_queue = sym (append-nil t.cancel_queue) i })

module _ (targets : List ℕ) (handler : ℕ) (k : Kernel) (t : Thread) where
  -- The tokens when the wait ends.
  abbrev pub pool_after : Bool
  pool_after = t.pool_stop || k.pool_stops t.ring handler

  abbrev pub token_after : StopToken
  token_after = stop_during (k.fiber_stops t.ring handler) t.fiber_stop

  -- What a wait leaves behind for the scheduler: once if the pool was stopped by the end of the wait, and
  -- once more if the fiber's token was, a cancellation is queued for each of the entries that the fiber
  -- waits for, in order, with a write to the thread's eventfd each; nothing else is queued.
  pub watch_stops_lem : watch_stops targets handler k t ≡ (
    ok tt,
    record t {
      pool_stop = pool_after;
      fiber_stop = token_after;
      cancel_queue =
          (t.cancel_queue ++ if_stopped pool_after targets)
          ++ if_stopped (stop_requested token_after) targets;
      notified =
          grown
            (grown t.notified (if_stopped pool_after targets))
            (if_stopped (stop_requested token_after) targets);
    },
  )
  unfolding watch_stops
  watch_stops_lem = rw (
    when-cancels pool_after targets k (record t { pool_stop = pool_after }),
    when-cancels (stop_requested token_after) targets k _,
  )
