-- ===== src/FiberBulk/Progress.antt =====
-- A bulk operation completes: some fiber can always go on until it did, and none goes on for ever.
use fiberexec.Base.{
  ℕ, ◌+◌, ◌*◌, ◌≤◌, ◌<◌, ◌≡◌, ◌≢◌, ◌⊎◌, inl, inr, refl, ap, List, [], ◌∷◌, ◌++◌, length, arith, suc,
  zero,
}
use fiberexec.Base.Range.{range, length-range_from}
use fiberexec.FiberOps.{StopToken}
use fiberexec.FiberBulk.{
  Shared, BulkTask, Phase, posted, caught, won, ran, last, finished, advance, receive_value,
}
use fiberexec.FiberBulk.System.{Fiber, System, Fun, Step, posts, runs, Reach, here, later, started}
use fiberexec.FiberBulk.Once.{active, ending, length-map, sum, sum-append, Inv, Reach-Inv}

-- The steps that a fiber has left.
abbrev pub steps_left : Phase → ℕ
steps_left posted = 5
steps_left (caught e) = 4
steps_left (won e) = 3
steps_left ran = 2
steps_left last = 1
steps_left finished = 0

abbrev pub measure : System → ℕ
measure s = 6 * length s.unposted + sum steps_left s.fibers

advance-shorter :
    (fun : Fun) (t : BulkTask) (p : Phase) (s : Shared)
    → p ≢ finished
    → steps_left (advance fun t p s).0 < steps_left p
unfolding advance
advance-shorter fun t posted s busy = ground arith
advance-shorter fun t (caught e) s busy = ground arith
advance-shorter fun t (won e) s busy = ground arith
advance-shorter fun t ran s busy = ground arith
advance-shorter fun t last s busy = ground arith
advance-shorter fun t finished s busy = absurd (busy refl)

Step-shorter : {fun : Fun} {s t : System} → Step fun s t → measure t < measure s
Step-shorter {fun} {s} (posts t ts e) =
    omega (
      arith,
      ap length e,
      sum-append steps_left s.fibers (record { work = t; phase = posted } ∷ []),
    )
Step-shorter {fun} {s} (runs xs f ys e busy) = omega (
  arith,
  ap (sum steps_left) e,
  sum-append steps_left xs (f ∷ ys),
  sum-append steps_left xs (record f { phase = (advance fun f.work f.phase s.shared).0 } ∷ ys),
  advance-shorter fun f.work f.phase s.shared busy,
)

-- A fiber that is not at its end.
find_busy :
    (fs : List Fiber)
    → 1 ≤ sum active fs + sum ending fs
    → (xs : List Fiber) × (f : Fiber) × (ys : List Fiber) × (fs ≡ xs ++ f ∷ ys)
      × (f.phase ≢ finished)
find_busy [] h = absurd (omega arith)
find_busy (f ∷ fs) h = elim (busy_or_not f.phase) [
  | inl busy ↦ ([], f, fs, refl, busy)
  | inr (a, e) ↦
      let (xs, g, ys, eq, busy) = find_busy fs (omega arith) in (f ∷ xs, g, ys, ap (◌∷◌ f) eq, busy)
]
  where
    busy_or_not : (p : Phase) → (p ≢ finished) ⊎ ((active p ≡ 0) × (ending p ≡ 0))
    busy_or_not finished = inr (refl, refl)
    busy_or_not posted = inl (λ e. ground arith)
    busy_or_not (caught x) = inl (λ e. ground arith)
    busy_or_not (won x) = inl (λ e. ground arith)
    busy_or_not ran = inl (λ e. ground arith)
    busy_or_not last = inl (λ e. ground arith)

can_step :
    (fun : Fun) (s : System)
    → (s.unposted ≡ []) ⊎ ((t : BulkTask) × (ts : List BulkTask) × (s.unposted ≡ t ∷ ts))
    → Inv s
    → s.shared.completions ≡ []
    → (u : System) × Step fun s u
can_step fun s (inr (t, ts, e)) v none_yet = (_, posts t ts e)
can_step fun s (inl e) v none_yet =
    let (xs, f, ys, eq, busy) =
      find_busy s.fibers (grind (arith, v.once, v.counted, ap length e, ap length none_yet)) in
    (_, runs xs f ys eq busy)

-- The steps of a run.
abbrev pub steps : {fun : Fun} {s t : System} → Reach fun s t → ℕ
steps here = 0
steps (later r st) = suc (steps r)

started-unposted : (n : ℕ) (tok : StopToken) → length (started n tok).unposted ≡ n
unfolding receive_value
started-unposted zero tok = refl
started-unposted (suc n) tok = ground (
  arith,
  length-map {A = BulkTask} (λ i. record { index = i; tok = tok }) (range (suc n)),
  length-range_from 0 (suc n),
)

within : {fun : Fun} {s t : System} → (r : Reach fun s t) → steps r + measure t ≤ measure s
within here = omega arith
within (later r st) = omega (arith, within r, Step-shorter st)

-- For any number of indices and any interleaving: as long as a bulk operation did not complete, its
-- launcher or one of its fibers has a step; and a run has at most `6 * n` steps, less those that
-- `measure` counts as left, which every further step lowers.
pub bulk_ends :
    {fun : Fun} (n : ℕ) (tok : StopToken) {t : System}
    → (r : Reach fun (started n tok) t)
    → (t.shared.completions ≡ [] → (u : System) × Step fun t u)
      × ((u : System) → Step fun t u → measure u < measure t)
      × (steps r + measure t ≤ 6 * n)
bulk_ends {fun} n tok {t} r = (
  λ none_yet. can_step fun t (split t.unposted) (Reach-Inv n tok r) none_yet,
  λ u st. Step-shorter st,
  omega (arith, within r, started-unposted n tok),
)
  where
    split : (l : List BulkTask) → (l ≡ []) ⊎ ((x : BulkTask) × (xs : List BulkTask) × (l ≡ x ∷ xs))
    split [] = inl refl
    split (x ∷ xs) = inr (x, xs, refl)
