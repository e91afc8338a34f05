-- ===== src/MultishotAcceptor.antt =====
-- src/multishot_acceptor.cpp and include/fiberexec/multishot_acceptor.hpp. One accept entry stays
-- armed in the ring; `complete` runs for each completion, `next` is called by one fiber. A call of
-- `next` that suspends is in two parts, `next_start` and `next_resume`.
pub mod System
pub mod Order
pub mod Armed
pub mod Closing
pub mod Destruction
use fiberexec.Base.{
  ℕ, zero, suc, ℤ, pos, is_neg, neg, minus, eq_ℤ, Bool, true, false, not, ◌&&◌, ◌||◌, List, [], ◌∷◌,
  ◌++◌, Option, none, some, if◌then◌else◌,
}
use fiberexec.Runtime.Abi.{ecanceled, einval, has_more}
use fiberexec.Runtime.Uring.{
  Op, Ring, Kernel, prep, set_data, get_sqe as ring_get_sqe, edit, submit as ring_submit,
}
use fiberexec.Runtime.Thread.{
  Error, system_error, runtime_error, Outcome, ok, err, fault, M, ◌>>=◌, ◌>>◌, pure, throw, when,
  get_sqe, write_sqe, submit, Thread,
}
use fiberexec.FiberOps.{StopToken, stop_requested, current_ring, is_null, current_fiber_stop_token}
use fiberexec.AsyncIo.{async_close}

-- `self` is the object's address. `waiter` is whether `waiter_` is engaged, and `answer` the shared
-- state of the promise that the suspended fiber waits on.
pub record Acceptor : Type 0 where
  pub self : ℕ
  pub server_fd : ℤ
  pub addr : ℕ
  pub addrlen : ℕ
  pub pending_fds : List ℤ
  pub waiter : Bool
  pub answer : Option ℤ
  pub error : ℤ

unfoldable pub construct : ℕ → ℤ → ℕ → ℕ → M Acceptor
unfolding current_ring
construct self server_fd addr addrlen = do
  ring ← current_ring
  when (not ring)
      (throw (runtime_error "multishot_acceptor constructed outside of a fiberexec fiber"))
  sqe ← get_sqe
  when (is_null sqe) (throw (runtime_error "multishot_acceptor: io_uring ring full"))
  write_sqe sqe (λ e. prep (Op.multishot_accept server_fd addr addrlen 0))
  write_sqe sqe (set_data self)
  ret ← submit
  when (is_neg ret) (throw (system_error (neg ret) "io_uring_submit (multishot_accept)"))
  pure (record {
    self = self;
    server_fd = server_fd;
    addr = addr;
    addrlen = addrlen;
    pending_fds = [];
    waiter = false;
    answer = none;
    error = pos 0;
  })

-- `waiter_->set_value(res); waiter_.reset();`
abbrev fulfil : ℤ → Acceptor → Acceptor
fulfil res a = record a { waiter = false; answer = some res }

deliver : ℤ → Acceptor → Acceptor
deliver res a =
    if is_neg res
    then (if a.waiter then fulfil res (record a { error = res }) else record a { error = res })
    else (if a.waiter then fulfil res a else record a { pending_fds = a.pending_fds ++ (res ∷ []) })

-- The entry is prepared and submitted again, unless the ring has no vacant one.
rearm : Kernel → Acceptor → Ring → Ring
rearm k a r = let (p, r') = ring_get_sqe k r in go p r'
  where
    go : Option ℕ → Ring → Ring
    go none r' = r'
    go (some i) r' =
        (ring_submit k (
          edit i (set_data a.self)
            (edit i (λ e. prep (Op.multishot_accept a.server_fd a.addr a.addrlen 0)) r'))).1

unfoldable pub complete : Kernel → ℤ → ℕ → Acceptor → Ring → Acceptor × Ring
unfolding deliver rearm
complete k res flags a r =
    (deliver res a, if not (has_more flags) && not (is_neg res) then rearm k a r else r)

-- What a call of `next` does at once.
pub data Start : Type 0 where
  returned : Option ℤ → Start
  thrown : Error → Start
  suspended : Start

-- ECANCELED and EINVAL end the stream.
abbrev ends : ℤ → Bool
ends res = eq_ℤ res (minus ecanceled) || eq_ℤ res (minus einval)

next_empty : StopToken → Acceptor → Start × Acceptor
next_empty st a =
    if not (eq_ℤ a.error (pos 0))
    then (if ends a.error
        then (returned none, a)
        else (thrown (system_error (neg a.error) "multishot_acceptor::next"), a))
    else (if stop_requested st
        then (returned none, record a { error = minus ecanceled })
        else (suspended, record a { waiter = true; answer = none }))

unfoldable pub next_start : StopToken → Acceptor → Start × Acceptor
unfolding next_empty
next_start st a = elim a.pending_fds [
  | [] ↦ next_empty st a
  | fd ∷ fds ↦ (returned (some fd), record a { pending_fds = fds })
]

unfoldable pub next_resume : ℤ → Outcome (Option ℤ)
next_resume res =
    if ends res
    then ok none
    else if is_neg res
    then err (system_error (neg res) "multishot_acceptor::next")
    else ok (some res)

close_all : List ℤ → M (Unit {0})
close_all [] = pure tt
close_all (fd ∷ fds) = async_close fd >> close_all fds

pub data End : Type 0 where
  finished hanging : End

-- `try { … } catch (...) { }` round the destructor's body.
abbrev caught : M End → M End
caught m k t = swallow (m k t)
  where
    swallow : Outcome End × Thread → Outcome End × Thread
    swallow (ok e, t') = (ok e, t')
    swallow (err e, t') = (ok finished, t')
    swallow (fault, t') = (fault, t')

-- The completions, each a result with its flags, that are drained together while a fiber waits.
pub complete_all : Kernel → List (ℤ × ℕ) → Acceptor → Ring → Acceptor × Ring
complete_all k [] a r = (a, r)
complete_all k ((res, flags) ∷ cs) a r =
    let (a', r') = complete k res flags a r in complete_all k cs a' r'

abbrev lift : Outcome (Option ℤ) → M (Option ℤ)
lift o k t = (o, t)

-- One round of `while (auto fd = next())`, `rest` being the rounds after it. With no batch left the
-- wait does not end. A batch that leaves the promise empty does not wake the fiber.
pub drain_round :
    (List (List (ℤ × ℕ)) → Acceptor → M End) → List (List (ℤ × ℕ)) → Start × Acceptor → M End
unfolding complete_all
drain_round rest bs (returned none, a) = pure finished
drain_round rest bs (returned (some fd), a) = async_close fd >> rest bs a
drain_round rest bs (thrown e, a) = throw e
drain_round rest [] (suspended, a) = pure hanging
drain_round rest (b ∷ bs) (suspended, a) =
    λ k t. let (a', r) = complete_all k b a t.ring in wake a' a'.answer k (record t { ring = r })
  where
    got : Acceptor → Option ℤ → M End
    got a' none = pure finished
    got a' (some fd) = async_close fd >> rest bs a'

    wake : Acceptor → Option ℤ → M End
    wake a' none = rest bs a'
    wake a' (some res) = lift (next_resume res) >>= got a'

pub drain : ℕ → List (List (ℤ × ℕ)) → Acceptor → M End
unfolding drain_round current_fiber_stop_token
drain zero bs a = pure hanging
drain (suc n) bs a = do st ← current_fiber_stop_token; drain_round (drain n) bs (next_start st a)

-- `::shutdown` with SHUT_RDWR.
shutdown : ℤ → M (Unit {0})
shutdown fd k t = (ok tt, record t { shut_down = t.shut_down ++ (fd ∷ []) })

-- The destructor. `deliver` are the batches of completions that the kernel has for the object from then
-- on, by the descriptors that were shut down.
unfoldable pub destroy : ℕ → (List ℤ → List (List (ℤ × ℕ))) → Acceptor → M End
unfolding close_all drain shutdown
destroy fuel deliver a =
    if not (eq_ℤ a.error (pos 0))
    then caught (close_all a.pending_fds >> pure finished)
    else caught (shutdown a.server_fd >> (λ k t. drain fuel (deliver t.shut_down) a k t))
