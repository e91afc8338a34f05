-- ===== src/SyncWait/Handshake.antt =====
-- The completer, on any thread, and the fiber that waits: their steps on the shared state, in any
-- interleaving, and how long that state lives.
pub mod Ends
pub mod Runs
use fiberexec.Base.{
  ℕ, suc, ◌+◌, ◌<◌, ◌≡◌, ◌≢◌, refl, ap, ◌∙◌, ◌⊎◌, inl, inr, Bool, true, false, not, ◌&&◌, ◌||◌,
  Option, none, some, if◌then◌else◌, arith,
}
use fiberexec.Runtime.Uring.{Kernel}
use fiberexec.Runtime.Thread.{Thread, Error, system_error, Outcome, ok, err}
use fiberexec.SyncWait.{
  SyncState, new_state, ErrorArgument, exception_ptr, other, error_code, set_value, set_error,
  set_stopped, wait_on,
}

-- How a sender completes: `unbuilt` is a set_value whose tuple cannot be built.
pub data Call (V : Type 0) : Type 0 where
  value : V → Call V
  unbuilt : Error → Call V
  error : ErrorArgument → Call V
  stopped : Call V

abbrev pub apply : {V : Type 0} → Call V → SyncState V → SyncState V
apply (value v) = set_value (ok v)
apply (unbuilt e) = set_value (err e)
apply (error x) = set_error x
apply stopped = set_stopped

abbrev pub exception : ErrorArgument → Error
exception (exception_ptr e) = e
exception (error_code code) = system_error code ""
exception (other e) = e

-- What the waiter should get.
abbrev pub result_of : {V : Type 0} → Call V → Outcome (Option (Option V))
result_of (value v) = ok (some (some v))
result_of (unbuilt e) = err e
result_of (error x) = err (exception x)
result_of stopped = ok (some none)

-- The completer: before its call, with its own copy of the shared_ptr, in the critical section,
-- after it, and at the end, where the copy is gone.
pub data Completer : Type 0 where
  called copied locked stored returned : Completer

-- The waiter: with the mutex and about to test `done`, found false, in the queue of the condition
-- variable, woken (or on its first way to the mutex), and gone with the operation and its receiver.
pub data Waiter : Type 0 where
  testing decided sleeping notified left : Waiter

pub record Handshake (V : Type 0) : Type 0 where
  pub state : SyncState V
  pub completer : Completer
  pub waiter : Waiter
  pub mutex_held : Bool

abbrev pub begun : {V : Type 0} → Handshake V
begun = record { state = new_state; completer = called; waiter = notified; mutex_held = false }

abbrev pub woken : Waiter → Waiter
woken sleeping = notified
woken w = w

module _ {V : Type 0} (c : Call V) where
  pub data Step (s : Handshake V) : Handshake V → Type 0 where
    copies : s.completer ≡ called → Step s (record s { completer = copied })
    enters :
        s.completer ≡ copied
        → s.mutex_held ≡ false
        → Step s (record s { completer = locked; mutex_held = true })
    stores :
        s.completer ≡ locked
        → Step s (record s { state = apply c s.state; completer = stored; mutex_held = false })
    notifies :
        s.completer ≡ stored → Step s (record s { completer = returned; waiter = woken s.waiter })
    locks :
        s.waiter ≡ notified
        → s.mutex_held ≡ false
        → Step s (record s { waiter = testing; mutex_held = true })
    tests :
        s.waiter ≡ testing
        → Step s (record s {
          waiter = if s.state.done then left else decided;
          mutex_held = not s.state.done;
        })
    sleeps : s.waiter ≡ decided → Step s (record s { waiter = sleeping; mutex_held = false })

  pub data Reach (s : Handshake V) : Handshake V → Type 0 where
    here : Reach s s
    later : {t u : Handshake V} → Reach s t → Step t u → Reach s u

-- Who keeps the state alive: the waiter's pointer and the receiver's until the waiter is gone, and the
-- completer's copy.
abbrev pub waiter_holds : Waiter → Bool
waiter_holds left = false
waiter_holds w = true

abbrev pub completer_holds : Completer → Bool
completer_holds called = false
completer_holds returned = false
completer_holds c = true

-- Whether the completer has still something to do with the state.
abbrev pub uses_state : Completer → Bool
uses_state returned = false
uses_state c = true

abbrev pub is_alive : {V : Type 0} → Handshake V → Bool
is_alive s = waiter_holds s.waiter || completer_holds s.completer
