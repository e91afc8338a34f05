-- ===== src/FiberBulk/Advance.antt =====
-- What one step of a fiber does to the exceptions that are held, stored and thrown.
use fiberexec.Base.{
  ℕ, ◌+◌, ◌≤◌, ◌≡◌, ◌≢◌, refl, sym, List, [], ◌∷◌, ◌++◌, Option, none, some, length, arith, true,
  false, if◌then◌else◌, Bool, All, All-snoc, All-none, subst,
}
use mathlib.Core.List.{append-nil}
use fiberexec.Base.Range.{count, count-append}
use fiberexec.FiberBulk.{
  Exception, Completion, set_value, set_error, set_stopped, Shared, BulkTask, Phase, posted, caught,
  won, ran, last, finished, advance,
}
use fiberexec.FiberBulk.System.{Fun, new_thrown}

-- Fibers that hold a caught exception, and fibers between the exchange and the store.
abbrev pub catching : Phase → ℕ
catching (caught e) = 1
catching _ = 0

abbrev pub winning : Phase → ℕ
winning (won e) = 1
winning _ = 0

abbrev pub flag : Bool → ℕ
flag true = 1
flag false = 0

abbrev pub stored : Option Exception → ℕ
stored none = 0
stored (some e) = 1

-- The exception that a fiber holds.
abbrev pub held : Phase → Option Exception
held (caught e) = some e
held (won e) = some e
held _ = none

abbrev pub WasThrown : List Exception → Option Exception → Type 0
WasThrown thrown o = (e : Exception) → o ≡ some e → 1 ≤ count e thrown

-- What a completion promises of the calls.
abbrev pub IsRight : List Exception → Completion → Type 0
IsRight thrown set_value = thrown ≡ []
IsRight thrown set_stopped = ⊥
IsRight thrown (set_error none) = ⊥
IsRight thrown (set_error (some e)) = 1 ≤ count e thrown

module _ (fun : Fun) (t : BulkTask) (s : Shared) (thrown : List Exception) where
  abbrev next : Phase → Phase
  next p = (advance fun t p s).0

  abbrev after : Phase → Shared
  after p = (advance fun t p s).1

  pub advance-one :
      (p : Phase) (others : ℕ)
      → stored s.error + (others + winning p) ≡ flag s.has_error
      → stored (after p).error + (others + winning (next p)) ≡ flag (after p).has_error
  unfolding advance
  advance-one posted others e = ground arith
  advance-one (caught x) others e = ground arith
  advance-one (won x) others e = ground arith
  advance-one ran others e = ground arith
  advance-one last others e = ground arith
  advance-one finished others e = ground arith

  pub advance-kept :
      (p : Phase) (others : ℕ)
      → (1 ≤ length thrown → 1 ≤ flag s.has_error + (others + catching p))
      → 1 ≤ length (thrown ++ new_thrown p (next p))
      → 1 ≤ flag (after p).has_error + (others + catching (next p))
  unfolding advance
  advance-kept posted others e h = ground (arith, append-nil thrown)
  advance-kept (caught x) others e h = ground arith
  advance-kept (won x) others e h = ground (arith, append-nil thrown)
  advance-kept ran others e h = ground (arith, append-nil thrown)
  advance-kept last others e h = ground (arith, append-nil thrown)
  advance-kept finished others e h = ground (arith, append-nil thrown)

  pub advance-held :
      (p : Phase)
      → WasThrown thrown (held p)
      → WasThrown (thrown ++ new_thrown p (next p)) (held (next p))
  unfolding advance
  advance-held posted h e eq = ground (arith, count-append e thrown (e ∷ []))
  advance-held (caught x) h e eq = ground (arith, h e, append-nil thrown)
  advance-held (won x) h e eq = ground arith
  advance-held ran h e eq = ground arith
  advance-held last h e eq = ground arith
  advance-held finished h e eq = ground arith

  pub advance-stored :
      (p : Phase)
      → WasThrown thrown (held p)
      → WasThrown thrown s.error
      → WasThrown (thrown ++ new_thrown p (next p)) (after p).error
  unfolding advance
  advance-stored posted h w e eq =
      ground (arith, w e, count-append e thrown (new_thrown posted (next posted)))
  advance-stored (caught x) h w e eq = ground (arith, w e, append-nil thrown)
  advance-stored (won x) h w e eq = ground (arith, h e, append-nil thrown)
  advance-stored ran h w e eq = ground (arith, w e, append-nil thrown)
  advance-stored last h w e eq = ground (arith, w e, append-nil thrown)
  advance-stored finished h w e eq = ground (arith, w e, append-nil thrown)

  pub advance-IsRight :
      (p : Phase)
      → p ≢ finished
      → s.completions ≡ []
      → (p ≡ last → IsRight thrown (if s.has_error then set_error s.error else set_value))
      → All (IsRight (thrown ++ new_thrown p (next p))) (after p).completions
  unfolding advance
  advance-IsRight posted busy none_yet right = All-none (IsRight _) s.completions none_yet
  advance-IsRight (caught e) busy none_yet right = All-none (IsRight _) _ (ground arith)
  advance-IsRight (won e) busy none_yet right = All-none (IsRight _) s.completions none_yet
  advance-IsRight ran busy none_yet right = All-none (IsRight _) s.completions none_yet
  advance-IsRight last busy none_yet right =
      subst (λ (ts : List Exception). All (IsRight ts) (after last).completions)
        (sym (append-nil thrown))
        (All-snoc (IsRight thrown) s.completions
          (if s.has_error then set_error s.error else set_value)
          (All-none (IsRight thrown) s.completions none_yet) (right refl))
  advance-IsRight finished busy none_yet right = absurd (busy refl)
