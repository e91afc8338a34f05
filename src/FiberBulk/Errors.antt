-- ===== src/FiberBulk/Errors.antt =====
-- A bulk operation completes with an error exactly if a call threw, and with an exception that one of
-- the calls threw.
use fiberexec.Base.{
  ℕ, zero, suc, ◌+◌, ◌≤◌, ◌≡◌, ◌≢◌, refl, ap, List, [], ◌∷◌, ◌++◌, Option, none, some, length,
  arith, true, false, if◌then◌else◌, Bool, All, All-mid, All-replace, All-snoc, All-none, subst,
}
use fiberexec.Base.Range.{count-append}
use fiberexec.FiberOps.{StopToken}
use fiberexec.FiberBulk.{
  Exception, set_value, set_error, BulkTask, Phase, posted, last, finished, advance, receive_value,
  new_shared,
}
use fiberexec.FiberBulk.System.{
  Fiber, System, Fun, Step, posts, runs, Reach, here, later, started, after_advance, new_thrown,
}
use fiberexec.FiberBulk.Advance.{
  catching, winning, flag, stored, held, WasThrown, IsRight, advance-one, advance-kept,
  advance-held, advance-stored, advance-IsRight,
}
use fiberexec.FiberBulk.Once.{
  Step-Inv as Step-Once, busy-none, ending-calm, ending, active, sum, sum-append, Inv,
  Reach-Inv as Reach-Once,
}

-- The completion of the last fiber.
last-IsRight :
    (b : Bool) (o : Option Exception) (thrown : List Exception)
    → stored o ≡ flag b
    → WasThrown thrown o
    → (1 ≤ length thrown → 1 ≤ flag b)
    → IsRight thrown (if b then set_error o else set_value)
last-IsRight true none thrown one w kept = absurd (omega arith)
last-IsRight true (some e) thrown one w kept = w e refl
last-IsRight false o [] one w kept = refl
last-IsRight false o (x ∷ xs) one w kept = absurd (ground arith)

record Errors (s : System) : Type 0 where
  once : Inv s
  one : stored s.shared.error + sum winning s.fibers ≡ flag s.shared.has_error
  kept : 1 ≤ length s.thrown → 1 ≤ flag s.shared.has_error + sum catching s.fibers
  holding : All (λ (f : Fiber). WasThrown s.thrown (held f.phase)) s.fibers
  storing : WasThrown s.thrown s.shared.error
  right : All (IsRight s.thrown) s.shared.completions

started-Errors : (n : ℕ) (tok : StopToken) → Errors (started n tok)
unfolding receive_value new_shared
started-Errors zero tok = record {
  once = Reach-Once {fun = λ _ _ _. none} zero tok here;
  one = refl;
  kept = λ h. absurd (omega arith);
  holding = tt;
  storing = λ e eq. ground arith;
  right = (refl, tt);
}
started-Errors (suc n) tok = record {
  once = Reach-Once {fun = λ _ _ _. none} (suc n) tok here;
  one = ground arith;
  kept = λ h. absurd (omega arith);
  holding = tt;
  storing = λ e eq. ground arith;
  right = All-none (IsRight []) _ (ground arith);
}

-- No fiber holds an exception once every fiber decremented the counter.
calm : (fs : List Fiber) → (sum winning fs + sum catching fs ≤ sum active fs)
calm [] = omega arith
calm (f ∷ fs) = omega (arith, calm fs, one f.phase)
  where
    one : (p : Phase) → winning p + catching p ≤ active p
    one p = ground arith

posts-Errors :
    (s : System) (t : BulkTask) (ts : List BulkTask) (fun : Fun)
    → s.unposted ≡ t ∷ ts
    → Inv (record s {
      unposted = ts;
      fibers = s.fibers ++ (record { work = t; phase = posted } ∷ []);
    })
    → Errors s
    → Errors (record s {
      unposted = ts;
      fibers = s.fibers ++ (record { work = t; phase = posted } ∷ []);
    })
posts-Errors s t ts fun e v x = record {
  once = v;
  one =
      omega (arith, x.one, sum-append winning s.fibers (record { work = t; phase = posted } ∷ []));
  kept = λ h.
      omega
        (arith, x.kept h, sum-append catching s.fibers (record { work = t; phase = posted } ∷ []));
  holding =
      All-snoc _ s.fibers (record { work = t; phase = posted }) x.holding (λ y eq. ground arith);
  storing = x.storing;
  right = x.right;
}

module _ (fun : Fun) (s : System) (xs : List Fiber) (f : Fiber) (ys : List Fiber)
    (e : s.fibers ≡ xs ++ f ∷ ys) (x : Errors s) where
  held_here : WasThrown s.thrown (held f.phase)
  held_here =
      All-mid (λ (g : Fiber). WasThrown s.thrown (held g.phase)) xs f ys
        (subst (All (λ (g : Fiber). WasThrown s.thrown (held g.phase))) e x.holding)

  sums : (w : Phase → ℕ) → sum w s.fibers ≡ sum w xs + sum w ys + w f.phase
  sums w = omega (arith, ap (sum w) e, sum-append w xs (f ∷ ys))

  none_completed : f.phase ≢ finished → s.shared.completions ≡ []
  none_completed busy =
      busy-none s x.once (omega (arith, sums active, sums ending, busy_one f.phase busy))
    where
      busy_one : (p : Phase) → p ≢ finished → 1 ≤ active p + ending p
      busy_one p h = ground arith

  ending-IsRight :
      f.phase ≡ last
      → IsRight s.thrown (if s.shared.has_error then set_error s.shared.error else set_value)
  ending-IsRight at_last =
      last-IsRight s.shared.has_error s.shared.error s.thrown
        (omega (arith, x.one, calm s.fibers, all_calm)) x.storing
        (λ h. omega (arith, x.kept h, calm s.fibers, all_calm))
    where
      all_calm : sum active s.fibers ≡ 0
      all_calm = ending-calm s x.once (omega (arith, sums ending, ap ending at_last))

  runs-Errors :
      f.phase ≢ finished → Inv (after_advance fun xs f ys s) → Errors (after_advance fun xs f ys s)
  runs-Errors busy v = record {
    once = v;
    one = omega (
      arith,
      advance-one fun f.work s.shared s.thrown f.phase (sum winning xs + sum winning ys)
          (omega (arith, x.one, sums winning)),
      sum-append winning xs (f' ∷ ys),
    );
    kept = λ h. omega (
      arith,
      advance-kept fun f.work s.shared s.thrown f.phase (sum catching xs + sum catching ys)
          (λ h'. omega (arith, x.kept h', sums catching)) h,
      sum-append catching xs (f' ∷ ys),
    );
    holding =
        All-replace (λ (g : Fiber). WasThrown s.thrown (held g.phase)) _ xs f f' ys
          (λ g h y eq. omega (arith, h y eq, count-append y s.thrown (new_thrown f.phase f'.phase)))
          (advance-held fun f.work s.shared s.thrown f.phase held_here)
          (subst (All (λ (g : Fiber). WasThrown s.thrown (held g.phase))) e x.holding);
    storing = advance-stored fun f.work s.shared s.thrown f.phase held_here x.storing;
    right =
        advance-IsRight fun f.work s.shared s.thrown f.phase busy (none_completed busy)
          ending-IsRight;
  }
    where
      f' : Fiber
      f' = record f { phase = (advance fun f.work f.phase s.shared).0 }

Step-Errors : {fun : Fun} {s t : System} → Step fun s t → Errors s → Errors t
Step-Errors {fun} {s} (posts t ts e) x =
    posts-Errors s t ts fun e (Step-Once {fun = fun} (posts t ts e) x.once) x
Step-Errors {fun} {s} (runs xs f ys e busy) x =
    runs-Errors fun s xs f ys e x busy (Step-Once (runs xs f ys e busy) x.once)

Reach-Errors :
    {fun : Fun} (n : ℕ) (tok : StopToken) {t : System} → Reach fun (started n tok) t → Errors t
Reach-Errors n tok here = started-Errors n tok
Reach-Errors n tok (later r st) = Step-Errors st (Reach-Errors n tok r)

-- For any number of indices and any interleaving of the fibers: a bulk operation completes with
-- set_value only if no call threw, with set_error only with an exception that one of the calls
-- threw, never with an empty one, and never with set_stopped.
pub completes-IsRight :
    {fun : Fun} (n : ℕ) (tok : StopToken) {t : System}
    → Reach fun (started n tok) t
    → All (IsRight t.thrown) t.shared.completions
completes-IsRight n tok r = (Reach-Errors n tok r).right
