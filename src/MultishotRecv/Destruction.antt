-- ===== src/MultishotRecv/Destruction.antt =====
-- ~multishot_recv(): the completions that its drain gets, and the rounds of the drain.
pub mod Rounds
pub mod Ends
use fiberexec.Base.{
  ℕ, zero, suc, ◌+◌, ◌≤◌, ◌<◌, ◌≡◌, refl, sym, ap, ◌∙◌, subst, ℤ, pos, is_positive, eq_ℤ, Bool,
  true, false, not, ◌||◌, List, [], ◌∷◌, ◌++◌, Option, none, some, length, arith, if◌then◌else◌,
}
use mathlib.Core.List.{append_assoc, append-nil}
use fiberexec.Base.Range.{count, count-append}
use fiberexec.Runtime.Abi.{has_more, has_buffer, buffer_of}
use fiberexec.Runtime.Uring.{Ring, Kernel}
use fiberexec.Runtime.Thread.{Thread, Outcome, ok, err, M, ◌>>=◌, ◌>>◌, pure}
use fiberexec.FiberOps.{stop_requested, current_fiber_stop_token}
use fiberexec.MultishotRecv.Buffer.{Item}
use fiberexec.MultishotRecv.{
  Recv, Start, returned, suspended, thrown, End, finished, store, wake, complete, complete_all,
  next_start, next_resume, return_buffer, drain_round, drain, ends,
}
use fiberexec.MultishotRecv.System.{ids, message}

-- Messages that one batch of completions brings: one less than the size of each, and its flags.
abbrev pub Arrivals : Type 0
Arrivals = List (ℕ × ℕ)

abbrev pub messages_of : Arrivals → List (ℤ × ℕ)
messages_of [] = []
messages_of ((n, flags) ∷ ds) = (pos (suc n), flags) ∷ messages_of ds

abbrev pub items_of : Arrivals → List Item
items_of [] = []
items_of ((n, flags) ∷ ds) = message (suc n) flags ∷ items_of ds

abbrev pub queued : Recv → List Item → Recv
queued a items = record a { pending = a.pending ++ items }

wake-idle : (a : Recv) → a.waiter ≡ false → wake a ≡ a
unfolding wake
wake-idle a e = rw e refl

pub store-waiter : (res : ℤ) (flags : ℕ) (a : Recv) → (store res flags a).waiter ≡ a.waiter
unfolding store return_buffer
store-waiter res flags a = ground arith

pub store-woken : (res : ℤ) (flags : ℕ) (a : Recv) → (store res flags a).woken ≡ a.woken
unfolding store return_buffer
store-woken res flags a = ground arith

-- What the end of an entry leaves: the messages, an error, and the buffer that came unused.
pub store-pending :
    (res : ℤ) (flags : ℕ) (a : Recv)
    → is_positive res ≡ false
    → (store res flags a).pending ≡ a.pending
unfolding store return_buffer
store-pending res flags a e = ground arith

pub store-error :
    (res : ℤ) (flags : ℕ) (a : Recv)
    → is_positive res ≡ false
    → eq_ℤ (store res flags a).error (pos 0) ≡ false
unfolding store return_buffer
store-error res flags a e = ground arith

abbrev pub unused : ℕ → List ℕ
unused flags = if has_buffer flags then buffer_of flags ∷ [] else []

pub store-bufs :
    (res : ℤ) (flags id : ℕ) (a : Recv)
    → is_positive res ≡ false
    → count id (store res flags a).ring_bufs ≡ count id a.ring_bufs + count id (unused flags)
unfolding store return_buffer
store-bufs res flags id a e = ground (arith, count-append id a.ring_bufs (buffer_of flags ∷ []))

module _ (k : Kernel) where
  complete-queued :
      (n flags : ℕ) (a : Recv) (r : Ring)
      → a.waiter ≡ false
      → (complete k (pos (suc n)) flags a r).0 ≡ queued a (message (suc n) flags ∷ [])
  unfolding complete store
  complete-queued n flags a r e = rw e refl

  pub complete_all-queued :
      (ds : Arrivals) (a : Recv) (r : Ring)
      → a.waiter ≡ false
      → (complete_all k (messages_of ds) a r).0 ≡ queued a (items_of ds)
  unfolding complete_all
  complete_all-queued [] a r e =
      ap (λ (l : List Item). record a { pending = l }) (sym (append-nil a.pending))
  complete_all-queued ((n, flags) ∷ ds) a r e =
      let now = complete-queued n flags a r e in
      complete_all-queued ds (complete k (pos (suc n)) flags a r).0
        (complete k (pos (suc n)) flags a r).1 (ap (λ (b : Recv). b.waiter) now ∙ e)
      ∙ ap (λ (b : Recv). queued b (items_of ds)) now
      ∙ ap (λ (l : List Item). record a { pending = l })
          (append_assoc a.pending (message (suc n) flags ∷ []) (items_of ds))

  -- The entry's end, which comes after the last messages.
  module _ (res : ℤ) (last_flags : ℕ) (ends_it : is_positive res ≡ false) where
    abbrev pub last_batch : Arrivals → List (ℤ × ℕ)
    last_batch [] = (res, last_flags) ∷ []
    last_batch ((n, flags) ∷ ds) = (pos (suc n), flags) ∷ last_batch ds

    abbrev ended : Recv → Recv
    ended a = store res last_flags a

    pub complete_all-last :
        (ds : Arrivals) (a : Recv) (r : Ring)
        → a.waiter ≡ false
        → (complete_all k (last_batch ds) a r).0 ≡ ended (queued a (items_of ds))
    unfolding complete_all complete store
    complete_all-last [] a r e =
        wake-idle (ended a) (store-waiter res last_flags a ∙ e)
        ∙ ap (λ (l : List Item). ended (record a { pending = l })) (sym (append-nil a.pending))
    complete_all-last ((n, flags) ∷ ds) a r e =
        let now = complete-queued n flags a r e in
        complete_all-last ds (complete k (pos (suc n)) flags a r).0
          (complete k (pos (suc n)) flags a r).1 (ap (λ (b : Recv). b.waiter) now ∙ e)
        ∙ ap (λ (b : Recv). ended (queued b (items_of ds))) now
        ∙ ap (λ (l : List Item). ended (record a { pending = l }))
            (append_assoc a.pending (message (suc n) flags ∷ []) (items_of ds))
