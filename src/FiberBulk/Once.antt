-- ===== src/FiberBulk/Once.antt =====
-- The receiver of a bulk operation is completed once, after every fiber is done with the shared state.
use fiberexec.Base.{
  ℕ, zero, suc, ◌+◌, ◌≤◌, ◌≡◌, refl, ap, List, [], ◌∷◌, ◌++◌, map, length, All, length-snoc,
  if◌then◌else◌, arith,
}
use fiberexec.Base.Range.{range, length-range_from}
use fiberexec.FiberOps.{StopToken}
use fiberexec.FiberBulk.{
  Shared, set_value, set_error, BulkTask, Phase, posted, caught, won, ran, last, finished, advance,
  receive_value, new_shared,
}
use fiberexec.FiberBulk.System.{Fiber, System, Fun, Step, posts, runs, Reach, here, later, started}

-- Fibers that have not decremented the counter yet, and fibers that are about to complete.
abbrev pub active : Phase → ℕ
active posted = 1
active (caught e) = 1
active (won e) = 1
active ran = 1
active last = 0
active finished = 0

abbrev pub ending : Phase → ℕ
ending last = 1
ending _ = 0

abbrev pub sum : (Phase → ℕ) → List Fiber → ℕ
sum w [] = 0
sum w (f ∷ fs) = w f.phase + sum w fs

pub sum-append : (w : Phase → ℕ) (xs ys : List Fiber) → sum w (xs ++ ys) ≡ sum w xs + sum w ys
sum-append w [] ys = omega arith
sum-append w (x ∷ xs) ys = omega (arith, sum-append w xs ys)

abbrev at_least_one : ℕ → ℕ
at_least_one zero = 0
at_least_one (suc n) = 1

pub record Inv (s : System) : Type 0 where
  pub counted : s.shared.remaining ≡ length s.unposted + sum active s.fibers
  pub once : length s.shared.completions + sum ending s.fibers + at_least_one s.shared.remaining ≡ 1

advance-counted :
    (fun : Fun) (t : BulkTask) (p : Phase) (s : Shared) (rest : ℕ)
    → s.remaining ≡ rest + active p
    → (advance fun t p s).1.remaining ≡ rest + active (advance fun t p s).0
unfolding advance
advance-counted fun t posted s rest e = ground arith
advance-counted fun t (caught x) s rest e = ground arith
advance-counted fun t (won x) s rest e = ground arith
advance-counted fun t ran s rest e = ground arith
advance-counted fun t last s rest e = ground arith
advance-counted fun t finished s rest e = ground arith

advance-once :
    (fun : Fun) (t : BulkTask) (p : Phase) (s : Shared) (rest others : ℕ)
    → s.remaining ≡ rest + active p
    → length s.completions + (others + ending p) + at_least_one s.remaining ≡ 1
    → length (advance fun t p s).1.completions
        + (others + ending (advance fun t p s).0)
        + at_least_one (advance fun t p s).1.remaining
      ≡ 1
unfolding advance
advance-once fun t posted s rest others e o = ground arith
advance-once fun t (caught x) s rest others e o = ground arith
advance-once fun t (won x) s rest others e o = ground arith
advance-once fun t ran s rest others e o = ground arith
advance-once fun t last s rest others e o =
    omega
      (arith, o, length-snoc s.completions (if s.has_error then set_error s.error else set_value))
advance-once fun t finished s rest others e o = ground arith

pub length-map {ℓ} : {A : Type ℓ} (f : ℕ → A) (xs : List ℕ) → length (map f xs) ≡ length xs
length-map f [] = refl
length-map f (x ∷ xs) = omega (arith, length-map f xs)

started-Inv : (n : ℕ) (tok : StopToken) → Inv (started n tok)
unfolding receive_value new_shared
started-Inv zero tok = record { counted = refl; once = refl }
started-Inv (suc n) tok = record {
  counted = ground (
    arith,
    length-map {A = BulkTask} (λ i. record { index = i; tok = tok }) (range (suc n)),
    length-range_from 0 (suc n),
  );
  once = ground arith;
}

pub Step-Inv : {fun : Fun} {s t : System} → Step fun s t → Inv s → Inv t
Step-Inv {fun} {s} (posts t ts e) v = record {
  counted = omega (
    arith,
    v.counted,
    ap length e,
    sum-append active s.fibers (record { work = t; phase = posted } ∷ []),
  );
  once =
      omega (arith, v.once, sum-append ending s.fibers (record { work = t; phase = posted } ∷ []));
}
Step-Inv {fun} {s} (runs xs f ys e busy) v = record {
  counted = omega (
    arith,
    advance-counted fun f.work f.phase s.shared (length s.unposted + sum active xs + sum active ys)
        (omega (arith, v.counted, ap (sum active) e, sum-append active xs (f ∷ ys))),
    sum-append active xs (record f { phase = (advance fun f.work f.phase s.shared).0 } ∷ ys),
  );
  once = omega (
    arith,
    advance-once fun f.work f.phase s.shared (length s.unposted + sum active xs + sum active ys)
        (sum ending xs + sum ending ys)
        (omega (arith, v.counted, ap (sum active) e, sum-append active xs (f ∷ ys)))
        (omega (arith, v.once, ap (sum ending) e, sum-append ending xs (f ∷ ys))),
    sum-append ending xs (record f { phase = (advance fun f.work f.phase s.shared).0 } ∷ ys),
  );
}

pub Reach-Inv :
    {fun : Fun} (n : ℕ) (tok : StopToken) {t : System} → Reach fun (started n tok) t → Inv t
Reach-Inv n tok here = started-Inv n tok
Reach-Inv n tok (later r st) = Step-Inv st (Reach-Inv n tok r)

all_finished :
    (fs : List Fiber)
    → sum active fs ≡ 0
    → sum ending fs ≡ 0
    → All (λ (f : Fiber). f.phase ≡ finished) fs
all_finished [] a e = tt
all_finished (f ∷ fs) a e =
    (finished_one f.phase (omega arith) (omega arith), all_finished fs (omega arith) (omega arith))
  where
    finished_one : (p : Phase) → active p ≡ 0 → ending p ≡ 0 → p ≡ finished
    finished_one p a e = ground arith

none_left : {A : Type 0} (l : List A) → length l ≡ 0 → l ≡ []
none_left [] e = refl
none_left (x ∷ xs) e = absurd (omega arith)

-- While a fiber is not at its end there is no completion, and once one is about to complete all the
-- others have decremented the counter.
pub busy-none :
    (s : System) → Inv s → 1 ≤ sum active s.fibers + sum ending s.fibers → s.shared.completions ≡ []
busy-none s v h = none_left s.shared.completions (grind (arith, v.once, v.counted))

pub ending-calm : (s : System) → Inv s → 1 ≤ sum ending s.fibers → sum active s.fibers ≡ 0
ending-calm s v h = grind (arith, v.once, v.counted)

-- For any number of indices and any interleaving: the receiver of a bulk operation is completed at
-- most once, and by then every task was posted and every fiber is at its end: none of them reads the
-- shared state, which the completion may destroy, any more.
pub completes_once :
    {fun : Fun} (n : ℕ) (tok : StopToken) {t : System}
    → Reach fun (started n tok) t
    → (length t.shared.completions ≤ 1)
      × (1 ≤ length t.shared.completions
          → (t.unposted ≡ []) × All (λ (f : Fiber). f.phase ≡ finished) t.fibers)
completes_once n tok {t} r = (
  omega (arith, v.once),
  λ some_done. (
    none_left t.unposted (omega (arith, v.counted, nothing some_done)),
    all_finished t.fibers (omega (arith, v.counted, nothing some_done)) (omega (arith, v.once)),
  ),
)
  where
    v : Inv t
    v = Reach-Inv n tok r

    nothing : 1 ≤ length t.shared.completions → t.shared.remaining ≡ 0
    nothing h = grind (arith, v.once)
