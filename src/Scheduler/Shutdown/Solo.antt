-- ===== src/Scheduler/Shutdown/Solo.antt =====
-- A pool of one thread always comes to its end: no fiber of that thread runs between the test of the
-- condition and the sleep.
use fiberexec.Base.{
  ℕ, ◌+◌, ◌≡◌, ◌≤◌, ◌<◌, Bool, true, false, not, ◌&&◌, if◌then◌else◌, arith, refl, ◌⊎◌, inl, inr,
  ◌∙◌,
}
use fiberexec.Scheduler.{may_exit, fiber_done, stop}
use fiberexec.Scheduler.Shutdown.{
  Stage, testing, decided, sleeping, notified, left, System, is_parked, is_left, after_notify,
  at_stage, tested, Step, launches, ends, notifies, stops, locks, tests, sleeps, Reach, here, later,
  IsNew,
}

record Inv (s : System) : Type 0 where
  counted : s.pool.in_flight ≡ (s.threads 0).live
  held : s.mutex_held ≡ not (is_parked (s.threads 0).stage) && not (is_left (s.threads 0).stage)
  parked : (s.threads 0).notifying ≡ true → is_parked (s.threads 0).stage ≡ true
  unsure : (s.threads 0).stage ≡ decided → s.pool.running ≡ false → 1 ≤ s.pool.in_flight
  asleep :
      (s.threads 0).stage ≡ sleeping
      → s.pool.running ≡ false
      → (s.threads 0).notifying ≡ false
      → 1 ≤ s.pool.in_flight

Step-Inv : {s t : System} → s.count ≡ 1 → Step s t → Inv s → Inv t
unfolding may_exit fiber_done stop
Step-Inv {s = s} one (launches i b run p q) v = ground arith
Step-Inv {s = s} one (ends i n b e p q) v = ground arith
Step-Inv {s = s} one (notifies i b q) v = ground arith
Step-Inv {s = s} one (stops run free) v = ground arith
Step-Inv {s = s} one (locks i b e q free) v = ground arith
Step-Inv {s = s} one (tests i b e) v = ground arith
Step-Inv {s = s} one (sleeps i b e) v = ground arith

Reach-count : {s t : System} → Reach s t → t.count ≡ s.count
Reach-count here = refl
Reach-count (later r (launches i b run p q)) = Reach-count r
Reach-count (later r (ends i n b e p q)) = Reach-count r
Reach-count (later r (notifies i b q)) = Reach-count r
Reach-count (later r (stops run free)) = Reach-count r
Reach-count (later r (locks i b e q free)) = Reach-count r
Reach-count (later r (tests i b e)) = Reach-count r
Reach-count (later r (sleeps i b e)) = Reach-count r

new-Inv : {s : System} → IsNew s → Inv s
new-Inv n =
    let e = n.entering 0 in
    record {
      counted = ground (arith, n.none_in_flight, e);
      held = ground (arith, n.free, e);
      parked = ground (arith, e);
      unsure = ground (arith, e);
      asleep = ground (arith, e);
    }

Reach-Inv : {s t : System} → s.count ≡ 1 → IsNew s → Reach s t → Inv t
Reach-Inv one n here = new-Inv n
Reach-Inv one n (later r st) = Step-Inv (Reach-count r ∙ one) st (Reach-Inv one n r)

abbrev rank : Stage → ℕ
rank left = 0
rank testing = 2
rank notified = 4
rank sleeping = 6
rank decided = 8

-- How far the worker is from leaving.
abbrev pub distance : System → ℕ
distance s = rank (s.threads 0).stage + (if (s.threads 0).notifying then 1 else 0)

abbrev IsOver : System → Type 0
IsOver s = (s.pool.running ≡ false) × (s.pool.in_flight ≡ 0)

nearer :
    {s t : System}
    → s.count ≡ 1
    → Inv s
    → IsOver s
    → Step s t
    → IsOver t × (distance t < distance s)
unfolding may_exit fiber_done stop
nearer one v o (launches i b run p q) = absurd (ground arith)
nearer {s} one v o (ends i n b e p q) = absurd (ground arith)
nearer one v o (notifies i b q) = ground arith
nearer one v o (stops run free) = absurd (ground arith)
nearer one v o (locks i b e q free) = ground arith
nearer one v o (tests i b e) = ground arith
nearer one v o (sleeps i b e) = absurd (ground arith)

next_step :
    (s : System) (g : Stage) (b : Bool)
    → s.count ≡ 1
    → Inv s
    → IsOver s
    → (s.threads 0).stage ≡ g
    → (s.threads 0).notifying ≡ b
    → (g ≡ left) ⊎ ((t : System) × Step s t)
next_step s left b one v o e f = inl refl
next_step s sleeping true one v o e f = inr (after_notify 0 s, notifies 0 (omega arith) f)
next_step s sleeping false one v o e f = absurd (ground arith)
next_step s notified true one v o e f = inr (after_notify 0 s, notifies 0 (omega arith) f)
next_step s notified false one v o e f =
    inr (at_stage 0 testing true s, locks 0 (omega arith) e f (ground arith))
next_step s testing b one v o e f =
    inr (at_stage 0 (tested s.pool) (not (may_exit s.pool)) s, tests 0 (omega arith) e)
next_step s decided b one v o e f = inr (at_stage 0 sleeping false s, sleeps 0 (omega arith) e)

-- In every state that a new pool of one thread reaches, once the pool is stopped and no fiber is in
-- flight: the worker has left, or a step is possible; and every step brings the worker nearer to
-- leaving and leaves the pool stopped and without fibers. So the destructor's join comes to an end.
pub solo_leaves :
    {s t : System}
    → s.count ≡ 1
    → IsNew s
    → Reach s t
    → t.pool.running ≡ false
    → t.pool.in_flight ≡ 0
    → (((t.threads 0).stage ≡ left) ⊎ ((u : System) × Step t u))
      × ((u : System)
          → Step t u
          → ((u.pool.running ≡ false) × (u.pool.in_flight ≡ 0)) × (distance u < distance t))
solo_leaves {s} {t} one n r off none_left = (
  next_step t (t.threads 0).stage (t.threads 0).notifying (Reach-count r ∙ one) (Reach-Inv one n r)
      (off, none_left) refl refl,
  λ u st. nearer (Reach-count r ∙ one) (Reach-Inv one n r) (off, none_left) st,
)
