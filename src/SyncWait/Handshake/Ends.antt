-- ===== src/SyncWait/Handshake/Ends.antt =====
-- The wait comes to its end, with the result of the completion, and the completer never touches a state
-- that is gone.
use fiberexec.Base.{
  ℕ, ◌+◌, ◌*◌, ◌<◌, ◌≡◌, refl, ap, ◌∙◌, ◌⊎◌, inl, inr, Bool, true, false, ◌&&◌, ◌||◌, if◌then◌else◌,
  arith,
}
use fiberexec.Runtime.Uring.{Kernel}
use fiberexec.Runtime.Thread.{Thread}
use fiberexec.SyncWait.{
  SyncState, new_state, exception_ptr, other, error_code, set_value, set_error, set_stopped,
  wait_on,
}
use fiberexec.SyncWait.Handshake.{
  Call, value, unbuilt, error, stopped, apply, result_of, Completer, called, copied, locked, stored,
  returned, Waiter, testing, decided, sleeping, notified, left, Handshake, begun, Step, copies,
  enters, stores, notifies, locks, tests, sleeps, Reach, here, later, is_alive, uses_state,
}

abbrev has_stored : Completer → Bool
has_stored called = false
has_stored copied = false
has_stored locked = false
has_stored stored = true
has_stored returned = true

abbrev waiter_has_mutex : Waiter → Bool
waiter_has_mutex testing = true
waiter_has_mutex decided = true
waiter_has_mutex sleeping = false
waiter_has_mutex notified = false
waiter_has_mutex left = false

abbrev is_locked : Completer → Bool
is_locked locked = true
is_locked called = false
is_locked copied = false
is_locked stored = false
is_locked returned = false

module _ {V : Type 0} (c : Call V) where
  abbrev now : Completer → SyncState V
  now p = if has_stored p then apply c new_state else new_state

  record Inv (s : Handshake V) : Type 0 where
    state : s.state ≡ now s.completer
    held : s.mutex_held ≡ waiter_has_mutex s.waiter || is_locked s.completer
    one_holder : (waiter_has_mutex s.waiter && is_locked s.completer) ≡ false
    not_yet : s.waiter ≡ decided → has_stored s.completer ≡ false
    will_be_woken : s.waiter ≡ sleeping → uses_state s.completer ≡ true
    gone : s.waiter ≡ left → has_stored s.completer ≡ true

  apply-done : (d : Call V) → (apply d new_state).done ≡ true
  unfolding set_value set_error set_stopped
  apply-done (value v) = refl
  apply-done (unbuilt e) = refl
  apply-done (error (exception_ptr e)) = refl
  apply-done (error (other e)) = refl
  apply-done (error (error_code n)) = refl
  apply-done stopped = refl

  now-done : (p : Completer) → (now p).done ≡ has_stored p
  unfolding new_state
  now-done called = refl
  now-done copied = refl
  now-done locked = refl
  now-done stored = apply-done c
  now-done returned = apply-done c

  Step-Inv : {s t : Handshake V} → Step c s t → Inv s → Inv t
  Step-Inv (copies e) v = ground arith
  Step-Inv (enters e free) v = ground arith
  Step-Inv {s = s} (stores e) v = ground arith
  Step-Inv (notifies e) v = ground arith
  Step-Inv (locks e free) v = ground arith
  Step-Inv {s = s} (tests e) v =
      ground (arith, now-done s.completer, ap (λ (x : SyncState V). x.done) v.state)
  Step-Inv (sleeps e) v = ground arith

  Reach-Inv : {t : Handshake V} → Reach c begun t → Inv t
  Reach-Inv here = ground arith
  Reach-Inv (later r st) = Step-Inv st (Reach-Inv r)

  abbrev left_to_do : Completer → ℕ
  left_to_do called = 4
  left_to_do copied = 3
  left_to_do locked = 2
  left_to_do stored = 1
  left_to_do returned = 0

  abbrev stages_left : Waiter → ℕ
  stages_left notified = 5
  stages_left testing = 4
  stages_left decided = 3
  stages_left sleeping = 2
  stages_left left = 0

  -- How much is left to do of both.
  abbrev pub remaining : Handshake V → ℕ
  remaining s = 10 * left_to_do s.completer + stages_left s.waiter

  nearer : {s t : Handshake V} → Step c s t → Inv s → remaining t < remaining s
  nearer (copies e) v = ground arith
  nearer (enters e free) v = ground arith
  nearer (stores e) v = ground arith
  nearer (notifies e) v = ground arith
  nearer (locks e free) v = ground arith
  nearer (tests e) v = ground arith
  nearer (sleeps e) v = ground arith

  abbrev IsOver : Handshake V → Type 0
  IsOver s = (s.completer ≡ returned) × (s.waiter ≡ left)

  abbrev Progress : Handshake V → Type 0
  Progress s = IsOver s ⊎ ((t : Handshake V) × Step c s t)

  -- The waiter can go on, or waits for the completer.
  waiter_next :
      (s : Handshake V) (w : Waiter) → Inv s → s.waiter ≡ w → s.completer ≡ returned → Progress s
  waiter_next s testing v e r = inr (_, tests e)
  waiter_next s decided v e r = inr (_, sleeps e)
  waiter_next s sleeping v e r = absurd (ground arith)
  waiter_next s notified v e r = inr (_, locks e (ground arith))
  waiter_next s left v e r = inl (r, e)

  -- A completer that waits for the mutex, while the waiter has it or not.
  copied_next :
      (s : Handshake V) (w : Waiter) → Inv s → s.waiter ≡ w → s.completer ≡ copied → Progress s
  copied_next s testing v e r = inr (_, tests e)
  copied_next s decided v e r = inr (_, sleeps e)
  copied_next s sleeping v e r = inr (_, enters r (ground arith))
  copied_next s notified v e r = inr (_, enters r (ground arith))
  copied_next s left v e r = absurd (ground arith)

  next_step : (s : Handshake V) (p : Completer) → Inv s → s.completer ≡ p → Progress s
  next_step s called v e = inr (_, copies e)
  next_step s copied v e = copied_next s s.waiter v refl e
  next_step s locked v e = inr (_, stores e)
  next_step s stored v e = inr (_, notifies e)
  next_step s returned v e = waiter_next s s.waiter v refl e

  wait_on_lem :
      (d : Call V) (k : Kernel) (th : Thread) → (wait_on (apply d new_state) k th).0 ≡ result_of d
  unfolding wait_on new_state set_value set_error set_stopped
  wait_on_lem (value x) k th = refl
  wait_on_lem (unbuilt e) k th = refl
  wait_on_lem (error (exception_ptr e)) k th = refl
  wait_on_lem (error (other e)) k th = refl
  wait_on_lem (error (error_code n)) k th = refl
  wait_on_lem stopped k th = refl

  lives : (s : Handshake V) → Inv s → uses_state s.completer ≡ true → is_alive s ≡ true
  lives s v u = ground arith

  outcome :
      (s : Handshake V) (k : Kernel) (th : Thread)
      → Inv s
      → s.waiter ≡ left
      → (wait_on s.state k th).0 ≡ result_of c
  outcome s k th v e =
      ap (λ (x : SyncState V). (wait_on x k th).0) (v.state ∙ known) ∙ wait_on_lem c k th
    where
      known : now s.completer ≡ apply c new_state
      known = ground arith

-- However the steps of the completer and of the waiting fiber are interleaved: no wakeup is lost, since
-- in every state that is reached both are done or a step is possible, and every step leaves less to
-- do; as long as the completer has something to do with the shared state, that state is alive; and
-- once the waiter has left it gets what the sender completed with: the value, the exception (also one
-- from building the value), or nullopt.
pub handshake_ends :
    {V : Type 0} (c : Call V) {t : Handshake V}
    → Reach c begun t
    → (((t.completer ≡ returned) × (t.waiter ≡ left)) ⊎ ((u : Handshake V) × Step c t u))
      × ((u : Handshake V) → Step c t u → remaining c u < remaining c t)
      × (uses_state t.completer ≡ true → is_alive t ≡ true)
      × ((k : Kernel) (th : Thread) → t.waiter ≡ left → (wait_on t.state k th).0 ≡ result_of c)
handshake_ends c {t} r =
    let v = Reach-Inv c r in
    (
      next_step c t t.completer v refl,
      λ u st. nearer c st v,
      lives c t v,
      λ k th e. outcome c t k th v e,
    )
