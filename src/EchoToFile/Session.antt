-- ===== src/EchoToFile/Session.antt =====
-- What a connection is logged by, and which of its descriptors an error leaves open.
use fiberexec.Base.{
  pos, ℕ, suc, ◌≤◌, ◌<◌, ◌≡◌, refl, sym, subst, ap, ◌∙◌, ℤ, is_positive, is_neg, neg, to_ℕ, Bool,
  true, false, Option, some, none, length, arith, if◌then◌else◌, String, [], ◌∷◌, ◌==◌, ◌-◌,
  Bool-cases, inl, inr,
}
use fiberexec.Runtime.Uring.{Kernel, Ring}
use fiberexec.Runtime.Thread.{Thread, system_error, Outcome, ok, err, M, ◌>>=◌, ◌>>◌, pure}
use fiberexec.FiberOps.Submission.{IsOpen, handler_of, sent_after}
use fiberexec.AsyncIo.{fd_ref_of_int, async_close}
use fiberexec.AsyncIo.Request.{Request, perform, entry_of, write, openat, close}
use fiberexec.AsyncIo.Untimed.{void_or}
use fiberexec.Exchange.{Session, first, receive_into, exchange}
use fiberexec.AsyncIo.Runs.{Lets, recv-Runs, write-Runs, openat-Runs, close-Runs}
use fiberexec.Exchange.Rounds.{exchange_lem}
use fiberexec.EchoToFile.{log, handle_connection, at_fdcwd, open_flags, open_mode, k_clients}

-- A write of the first `n` bytes of the buffer.
abbrev pub pass_on : (file_fd : ℤ) (buf n : ℕ) → Request
pass_on file_fd buf n = write (fd_ref_of_int file_fd) (first buf n)

-- The loop with its calls is the one that all servers share.
log-exchange :
    (fuel : ℕ) (client_fd file_fd : ℤ) (buf : ℕ)
    → log fuel client_fd file_fd buf
      ≡ exchange (receive_into client_fd buf) (pass_on file_fd buf) fuel
unfolding log exchange
log-exchange ℕ.zero client_fd file_fd buf = refl
log-exchange (suc fuel) client_fd file_fd buf = ap round (log-exchange fuel client_fd file_fd buf)
  where
    round : M Bool → M Bool
    round rest = perform (receive_into client_fd buf) none >>= λ n.
        if is_positive n
        then (perform (pass_on file_fd buf (to_ℕ n)) none >>= λ _. rest)
        else pure true

module _ (k : Kernel) where
  abbrev pub closed : ℤ → ℕ → Ring → Ring
  closed fd h r = sent_after r (entry_of (close fd) h ∷ [])

  abbrev pub opened : String → ℕ → Ring → Ring
  opened path h r = sent_after r (entry_of (openat at_fdcwd path open_flags open_mode) h ∷ [])

  -- The two closes at the end: a failed one throws, and the client's descriptor is then still open.
  pub data Closes (file_fd client_fd : ℤ) (last : Bool)
      : Ring → Outcome (Option Bool) → Ring → Type 0 where
    client_left_open :
        (r : Ring) (h : ℕ)
        → is_neg (k.result (closed file_fd h r) h) ≡ true
        → Closes file_fd client_fd last r
            (err (system_error (neg (k.result (closed file_fd h r) h)) "async_close"))
            (closed file_fd h r)
    client_failed :
        (r : Ring) (h h' : ℕ)
        → is_neg (k.result (closed file_fd h r) h) ≡ false
        → is_neg (k.result (closed client_fd h' (closed file_fd h r)) h') ≡ true
        → Closes file_fd client_fd last r
            (err (
              system_error
                (neg (k.result (closed client_fd h' (closed file_fd h r)) h'))
                "async_close"))
            (closed client_fd h' (closed file_fd h r))
    both_closed :
        (r : Ring) (h h' : ℕ)
        → is_neg (k.result (closed file_fd h r) h) ≡ false
        → is_neg (k.result (closed client_fd h' (closed file_fd h r)) h') ≡ false
        → Closes file_fd client_fd last r
            (ok (some last))
            (closed client_fd h' (closed file_fd h r))

  -- A file that cannot be opened throws, with the client's descriptor open; else the bytes go to the
  -- file, and both descriptors are closed.
  pub data LogSession (path : String) (client_fd : ℤ) (buf : ℕ) (last : Bool) (r : Ring)
      : Outcome (Option Bool) → Ring → Type 0 where
    not_opened :
        (h : ℕ)
        → is_neg (k.result (opened path h r) h) ≡ true
        → LogSession path client_fd buf last r
            (err (system_error (neg (k.result (opened path h r) h)) "async_openat"))
            (opened path h r)
    logged :
        (h : ℕ) {r' r'' : Ring} {o : Outcome (Option Bool)}
        → is_neg (k.result (opened path h r) h) ≡ false
        → Session k
            (receive_into client_fd buf)
            (pass_on (k.result (opened path h r) h) buf)
            (opened path h r)
            r'
        → Closes (k.result (opened path h r) h) client_fd last r' o r''
        → LogSession path client_fd buf last r o r''

module _ {k : Kernel} (o : Lets k) where
  abbrev ClosesBoth : ℤ → ℤ → Bool → Thread → Type 0
  ClosesBoth file_fd client_fd last t =
      (x : Outcome (Option Bool)) × (t' : Thread) × ((async_close file_fd
            >> (async_close client_fd >> pure (some last)))
          k t
        ≡ (x, t'))
      × IsOpen t'
      × Closes k file_fd client_fd last t.ring x t'.ring

  -- The second close, after the first.
  third :
      {file_fd client_fd : ℤ} {last : Bool} (t t1 t2 : Thread)
      → async_close file_fd k t ≡ (ok tt, t1)
      → let r = closed k client_fd (handler_of t1) (closed k file_fd (handler_of t) t.ring) in
        async_close client_fd k t1 ≡ void_or "async_close" (k.result r (handler_of t1)) k t2
        → IsOpen t2
        → t2.ring ≡ closed k client_fd (handler_of t1) (closed k file_fd (handler_of t) t.ring)
        → is_neg (k.result (closed k file_fd (handler_of t) t.ring) (handler_of t)) ≡ false
        → ClosesBoth file_fd client_fd last t
  third {file_fd} {client_fd} {last} t t1 t2 ran1 ran2 g2 ring2 b =
      elim (Bool-cases (
        is_neg (
          k.result (closed k client_fd (handler_of t1) (closed k file_fd (handler_of t) t.ring))
            (handler_of t1)))) [
              | inl c ↦ (
                _,
                t2,
                rw (ran1, ran2, c) refl,
                g2,
                subst (Closes k file_fd client_fd last t.ring _) (sym ring2)
                    (client_failed t.ring (handler_of t) (handler_of t1) b c),
              )
              | inr c ↦ (
                _,
                t2,
                rw (ran1, ran2, c) refl,
                g2,
                subst (Closes k file_fd client_fd last t.ring _) (sym ring2)
                    (both_closed t.ring (handler_of t) (handler_of t1) b c),
              )
            ]

  closes_lem :
      (file_fd client_fd : ℤ) (last : Bool) (t : Thread)
      → IsOpen t
      → ClosesBoth file_fd client_fd last t
  closes_lem file_fd client_fd last t g =
      let (t1, ran1, g1, ring1) = close-Runs o file_fd t g in
      elim (Bool-cases
        (is_neg (k.result (closed k file_fd (handler_of t) t.ring) (handler_of t)))) [
          | inl b ↦ (
            _,
            t1,
            rw (ran1, b) refl,
            g1,
            subst (Closes k file_fd client_fd last t.ring _) (sym ring1)
                (client_left_open t.ring (handler_of t) b),
          )
          | inr b ↦ second t1 (ran1 ∙ rw b refl) g1 ring1 b
        ]
    where
      second :
          (t1 : Thread)
          → async_close file_fd k t ≡ (ok tt, t1)
          → IsOpen t1
          → t1.ring ≡ closed k file_fd (handler_of t) t.ring
          → is_neg (k.result (closed k file_fd (handler_of t) t.ring) (handler_of t)) ≡ false
          → ClosesBoth file_fd client_fd last t
      second t1 ran1 g1 ring1 b =
          let (t2, ran2, g2, ring2) = close-Runs o client_fd t1 g1 in
          third t t1 t2 ran1
            (ran2
              ∙ ap
                  (λ (r : Ring).
                    void_or "async_close"
                      (k.result (closed k client_fd (handler_of t1) r) (handler_of t1)) k t2)
                  ring1)
            g2 (ring2 ∙ ap (closed k client_fd (handler_of t1)) ring1) b

  abbrev Handles : ℕ → String → ℕ → ℤ → ℕ → Thread → Type 0
  Handles fuel path id client_fd buf t =
      (x : Outcome (Option Bool)) × (t' : Thread) × (handle_connection fuel path id client_fd buf k
          t
        ≡ (x, t'))
      × IsOpen t'
      × LogSession k path client_fd buf (id == k_clients - 1) t.ring x t'.ring

  -- The file is open: the loop runs and ends, and the descriptors are closed.
  runs_on :
      (fuel m : ℕ) (path : String) (id : ℕ) (client_fd : ℤ) (buf : ℕ) (t t1 : Thread)
      → ((r : Ring) (h : ℕ) → m ≤ length r.sent → is_positive (k.result r h) ≡ false)
      → m < fuel
      → let r1 = opened k path (handler_of t) t.ring in
        perform (openat at_fdcwd path open_flags open_mode) none k t
          ≡ (ok (k.result r1 (handler_of t)), t1)
        → IsOpen t1
        → t1.ring ≡ r1
        → is_neg (k.result r1 (handler_of t)) ≡ false
        → Handles fuel path id client_fd buf t
  unfolding handle_connection
  runs_on fuel m path id client_fd buf t t1 quiet enough ran1 g1 ring1 b =
      let file_fd = k.result (opened k path (handler_of t) t.ring) (handler_of t) in
      let (t2, ran2, g2, session) =
        exchange_lem o (receive_into client_fd buf) (pass_on file_fd buf) "async_recv" "async_write"
          (recv-Runs o client_fd (first buf 256) (pos 0)) (λ n. write-Runs o file_fd (first buf n))
          m quiet fuel t1 g1 (omega arith) (omega arith) in
      let (x, t3, ran3, g3, closes) = closes_lem file_fd client_fd (id == k_clients - 1) t2 g2 in
      (
        x,
        t3,
        rw (ran1, log-exchange fuel client_fd file_fd buf, ran2) ran3,
        g3,
        logged (handler_of t) b
            (subst
              (λ (r : Ring). Session k (receive_into client_fd buf) (pass_on file_fd buf) r t2.ring)
              ring1 session)
            closes,
      )

-- A worker's handling of a connection with a log file, in a fiber that nobody stops, on a kernel that
-- serves requests and where the client is done once `m` batches were submitted: with fuel above `m` it
-- ends. If the file cannot be opened, the error is thrown with nothing received and the client's
-- descriptor never closed. Else each message is followed by one write of exactly as many bytes to the
-- file until a receive gives none or an error or a write fails; then the file is closed, and the
-- client's descriptor after it, unless the close of the file fails, which throws. The listening socket
-- is to be shut down only after both closes, and only for the connection with the last number.
pub connection_logged :
    {k : Kernel} (o : Lets k) (fuel m : ℕ) (path : String) (id : ℕ) (client_fd : ℤ) (buf : ℕ)
    (t : Thread)
    → ((r : Ring) (h : ℕ) → m ≤ length r.sent → is_positive (k.result r h) ≡ false)
    → IsOpen t
    → m < fuel
    → (x : Outcome (Option Bool)) × (t' : Thread) × (handle_connection fuel path id client_fd buf k
          t
        ≡ (x, t'))
      × IsOpen t'
      × LogSession k path client_fd buf (id == k_clients - 1) t.ring x t'.ring
unfolding handle_connection
connection_logged {k} o fuel m path id client_fd buf t quiet g enough =
    let (t1, ran1, g1, ring1) = openat-Runs o at_fdcwd path open_flags open_mode t g in
    elim (Bool-cases (is_neg (k.result (opened k path (handler_of t) t.ring) (handler_of t)))) [
      | inl b ↦ (
        _,
        t1,
        rw (ran1, b) refl,
        g1,
        subst (LogSession k path client_fd buf (id == k_clients - 1) t.ring _) (sym ring1)
            (not_opened (handler_of t) b),
      )
      | inr b ↦
          runs_on o fuel m path id client_fd buf t t1 quiet enough (ran1 ∙ rw b refl) g1 ring1 b
    ]
