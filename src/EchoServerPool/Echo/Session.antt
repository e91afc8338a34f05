-- ===== src/EchoServerPool/Echo/Session.antt =====
-- A connection is echoed message by message until the client is done, and is then closed.
use fiberexec.Base.{
  pos, ℕ, suc, ◌≤◌, ◌<◌, ◌≡◌, refl, ap, ℤ, is_positive, to_ℕ, Bool, true, false, some, none, length,
  arith, if◌then◌else◌,
}
use fiberexec.Runtime.Uring.{Kernel, Ring}
use fiberexec.Runtime.Thread.{Thread, ok, M, ◌>>=◌, pure}
use fiberexec.FiberOps.Submission.{IsOpen}
use fiberexec.AsyncIo.Request.{perform}
use fiberexec.Exchange.{Session, first, receive_into, reply_from, exchange}
use fiberexec.AsyncIo.Runs.{Lets, recv-Runs, send-Runs}
use fiberexec.Exchange.Rounds.{exchange_lem}
use fiberexec.EchoServerPool.Echo.{echo, handle_connection}

-- The loop with its calls is the one that all servers share.
echo-exchange :
    (fuel : ℕ) (fd : ℤ) (buf : ℕ)
    → echo fuel fd buf ≡ exchange (receive_into fd buf) (reply_from fd buf) fuel
unfolding echo exchange
echo-exchange ℕ.zero fd buf = refl
echo-exchange (suc fuel) fd buf = ap round (echo-exchange fuel fd buf)
  where
    round : M Bool → M Bool
    round rest = perform (receive_into fd buf) none >>= λ n.
        if is_positive n
        then (perform (reply_from fd buf (to_ℕ n)) none >>= λ _. rest)
        else pure true

-- A worker's handling of a connection, in a fiber that nobody stops, on a kernel that serves requests and
-- where the client is done (a receive gives nothing) once `m` batches were submitted: with fuel above
-- `m` the loop ends; the fiber receives, and answers each message with a send of exactly as many bytes
-- as came, until a receive gives none or an error or a send fails; it submits nothing else; and the
-- descriptor is closed in the end, whichever of them it was.
pub connection_echoed :
    {k : Kernel} (o : Lets k) (fd : ℤ) (buf m fuel : ℕ) (t : Thread)
    → ((r : Ring) (h : ℕ) → m ≤ length r.sent → is_positive (k.result r h) ≡ false)
    → IsOpen t
    → m < fuel
    → (t' : Thread) × (handle_connection fuel fd buf k t ≡ (ok (some fd), t'))
      × IsOpen t'
      × Session k (receive_into fd buf) (reply_from fd buf) t.ring t'.ring
unfolding handle_connection
connection_echoed o fd buf m fuel t quiet g enough =
    let (t', ran, g', session) =
      exchange_lem o (receive_into fd buf) (reply_from fd buf) "async_recv" "async_send"
        (recv-Runs o fd (first buf 256) (pos 0)) (λ n. send-Runs o fd (first buf n) (pos 0)) m quiet
        fuel t g (omega arith) (omega arith) in
    (t', rw (echo-exchange fuel fd buf, ran) refl, g', session)
