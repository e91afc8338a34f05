-- ===== src/FiberBulk/System.antt =====
-- A bulk operation and its fibers: the launcher posts the tasks one by one while fibers that were
-- posted already run.
use fiberexec.Base.{ℕ, ◌≡◌, List, [], ◌∷◌, ◌++◌, Option}
use fiberexec.FiberOps.{StopToken}
use fiberexec.FiberBulk.{
  Exception, Shared, new_shared, BulkTask, Phase, posted, caught, finished, advance, receive_value,
}

pub record Fiber : Type 0 where
  pub work : BulkTask
  pub phase : Phase

-- `thrown` are the exceptions that left `fun`, oldest first.
pub record System : Type 0 where
  pub shared : Shared
  pub unposted : List BulkTask
  pub fibers : List Fiber
  pub thrown : List Exception

abbrev pub Fun : Type 0
Fun = ℕ → ℕ → StopToken → Option Exception

-- The exceptions that a step of a fiber adds.
abbrev pub new_thrown : Phase → Phase → List Exception
new_thrown posted (caught e) = e ∷ []
new_thrown _ _ = []

abbrev pub after_advance : Fun → List Fiber → Fiber → List Fiber → System → System
after_advance fun xs f ys s = record s {
  shared = (advance fun f.work f.phase s.shared).1;
  fibers = xs ++ record f { phase = (advance fun f.work f.phase s.shared).0 } ∷ ys;
  thrown = s.thrown ++ new_thrown f.phase (advance fun f.work f.phase s.shared).0;
}

pub data Step (fun : Fun) (s : System) : System → Type 0 where
  posts :
      (t : BulkTask) (ts : List BulkTask)
      → s.unposted ≡ t ∷ ts
      → Step fun s (record s {
        unposted = ts;
        fibers = s.fibers ++ (record { work = t; phase = posted } ∷ []);
      })
  runs :
      (xs : List Fiber) (f : Fiber) (ys : List Fiber)
      → s.fibers ≡ xs ++ f ∷ ys
      → (f.phase ≡ finished → ⊥)
      → Step fun s (after_advance fun xs f ys s)

pub data Reach (fun : Fun) (s : System) : System → Type 0 where
  here : Reach fun s s
  later : {t u : System} → Reach fun s t → Step fun t u → Reach fun s u

-- The operation once its predecessor completed with a value.
abbrev pub started : ℕ → StopToken → System
started n tok = record {
  shared = (receive_value n tok (new_shared n)).0;
  unposted = (receive_value n tok (new_shared n)).1;
  fibers = [];
  thrown = [];
}
