-- ===== src/FixedBufferPool/SendZc.antt =====
-- `send_zc_handler` and `async_send_zc`: a send has two completions, of the bytes and of the buffer.
pub mod Phases
use fiberexec.Base.{
  ℕ, ℤ, pos, is_neg, neg, Bool, true, false, not, List, [], ◌∷◌, Option, none, some, if◌then◌else◌,
}
use fiberexec.Runtime.Abi.{has_more, is_notif}
use fiberexec.Runtime.Uring.{Op, prep, set_data}
use fiberexec.Runtime.Thread.{
  Outcome, ok, err, system_error, runtime_error, M, ◌>>=◌, ◌>>◌, pure, throw, when, get_sqe,
  write_sqe, submit, new_handler,
}
use fiberexec.FiberOps.{current_ring, is_null}
use fiberexec.FixedBufferPool.{FixedBuffer, data_of}

pub record SendZcHandler : Type 0 where
  pub result : ℤ
  pub satisfied : Bool

unfoldable pub new_send_zc_handler : SendZcHandler
new_send_zc_handler = record { result = pos 0; satisfied = false }

-- `promise_.set_value()`: a second call throws, and in a noexcept function that ends the program
-- (none).
unfoldable pub set_value : SendZcHandler → Option SendZcHandler
set_value h = if h.satisfied then none else some (record h { satisfied = true })

unfoldable pub complete : ℤ → ℕ → SendZcHandler → Option SendZcHandler
unfolding set_value
complete res flags h =
    if is_notif flags
    then set_value h
    else (if not (has_more flags)
        then set_value (record h { result = res })
        else some (record h { result = res }))

unfoldable pub complete_all : List (ℤ × ℕ) → SendZcHandler → Option SendZcHandler
unfolding complete
complete_all [] h = some h
complete_all ((res, flags) ∷ cs) h = elim (complete res flags h) [
  | none ↦ none
  | some h' ↦ complete_all cs h'
]

-- `handler.wait()`, once all completions of the entry have come: none if the fiber is not woken or
-- the program ended.
unfoldable pub wait : List (ℤ × ℕ) → Option ℤ
unfolding complete_all new_send_zc_handler
wait cs = elim (complete_all cs new_send_zc_handler) [
  | none ↦ none
  | some h ↦ if h.satisfied then some h.result else none
]

unfoldable pub async_send_zc : (buf_size : ℕ) → ℤ → FixedBuffer → ℕ → ℤ → M (Option ℤ)
unfolding current_ring wait data_of
async_send_zc buf_size fd buf nbytes flags = do
  ring ← current_ring
  when (not ring) (throw (runtime_error "async_send_zc called outside of a fiberexec fiber"))
  sqe ← get_sqe
  when (is_null sqe) (throw (runtime_error "async_send_zc: io_uring ring full"))
  handler ← new_handler
  write_sqe sqe (λ e. prep (Op.send_zc_fixed fd (data_of buf_size buf).ptr nbytes flags 0 buf.idx))
  write_sqe sqe (set_data handler)
  ret ← submit
  when (is_neg ret) (throw (system_error (neg ret) "io_uring_submit (async_send_zc)"))
  cs ← λ k t. (ok (k.completions t.ring handler), t)
  answer (wait cs)
  where
    answer : Option ℤ → M (Option ℤ)
    answer none = pure none
    answer (some result) = do
      when (is_neg result) (throw (system_error (neg result) "async_send_zc"))
      pure (some result)
