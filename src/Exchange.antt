-- ===== src/Exchange.antt =====
-- The loop that the servers of the examples run for a connection: receive, and pass on what came, as one
-- definition for all of them.
pub mod Rounds
use fiberexec.Base.{
  ◌≡◌, is_neg, [], ◌∷◌, ℕ, suc, ℤ, pos, is_positive, to_ℕ, Bool, true, false, none, if◌then◌else◌,
}
use fiberexec.Runtime.Uring.{Span, Kernel, Ring}
use fiberexec.Runtime.Thread.{
  Thread, system_error, runtime_error, invalid_argument, Outcome, ok, err, fault, M, ◌>>=◌, pure,
}
use fiberexec.AsyncIo.{fd_ref_of_int}
use fiberexec.AsyncIo.Request.{Request, recv, send, perform, entry_of}
use fiberexec.FiberOps.Submission.{sent_after}

-- `buf`, an array of 256 characters at an address, and the first `n` of them.
abbrev pub first : ℕ → ℕ → Span
first buf n = record { ptr = buf; size = n }

-- `catch (std::system_error const&) { }`, which ends the loop.
abbrev pub caught : M Bool → M Bool
caught m k t = swallow (m k t)
  where
    swallow : Outcome Bool × Thread → Outcome Bool × Thread
    swallow (err (system_error code what), t') = (ok true, t')
    swallow (err (runtime_error what), t') = (err (runtime_error what), t')
    swallow (err (invalid_argument what), t') = (err (invalid_argument what), t')
    swallow (ok b, t') = (ok b, t')
    swallow (fault, t') = (fault, t')

-- A receive into the whole buffer, and a send of its first `n` bytes.
abbrev pub receive_into : (fd : ℤ) (buf : ℕ) → Request
receive_into fd buf = recv (fd_ref_of_int fd) (first buf 256) (pos 0)

abbrev pub reply_from : (fd : ℤ) (buf n : ℕ) → Request
reply_from fd buf n = send (fd_ref_of_int fd) (first buf n) (pos 0)

-- The loop with its receive and what it does with `n` bytes, for so many receives: whether it ended.
unfoldable pub exchange : Request → (ℕ → Request) → ℕ → M Bool
exchange receive reply ℕ.zero = pure false
exchange receive reply (suc fuel) = perform receive none >>= λ n.
    if is_positive n
    then (perform (reply (to_ℕ n)) none >>= λ _. exchange receive reply fuel)
    else pure true

module _ (k : Kernel) (receive : Request) (reply : ℕ → Request) where
  -- The ring after a receive, and after passing on `n` bytes.
  abbrev pub received : ℕ → Ring → Ring
  received h r = sent_after r (entry_of receive h ∷ [])

  abbrev pub replied : ℕ → ℕ → Ring → Ring
  replied n h r = sent_after r (entry_of (reply n) h ∷ [])

  -- Receives, each but the last followed by one request that passes on as many bytes as came.
  pub data Session : Ring → Ring → Type 0 where
    over :
        (r : Ring) (h : ℕ)
        → is_positive (k.result (received h r) h) ≡ false
        → Session r (received h r)
    unsent :
        (r : Ring) (h h' n : ℕ)
        → k.result (received h r) h ≡ pos (suc n)
        → is_neg (k.result (replied (suc n) h' (received h r)) h') ≡ true
        → Session r (replied (suc n) h' (received h r))
    goes_on :
        (r r' : Ring) (h h' n : ℕ)
        → k.result (received h r) h ≡ pos (suc n)
        → is_neg (k.result (replied (suc n) h' (received h r)) h') ≡ false
        → Session (replied (suc n) h' (received h r)) r'
        → Session r r'
