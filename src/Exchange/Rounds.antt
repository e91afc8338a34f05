-- ===== src/Exchange/Rounds.antt =====
-- Each message is passed on until the client is done.
use fiberexec.Base.{
  ℕ, suc, ◌+◌, ◌≤◌, ◌<◌, ◌≡◌, refl, sym, subst, ap, ◌∙◌, ℤ, pos, negsuc, is_positive, is_neg, Bool,
  true, false, [], ◌∷◌, none, length, length-snoc, dec_le, arith, String, Bool-cases, inl, inr,
}
use fiberexec.Runtime.Uring.{Kernel, Ring}
use fiberexec.Runtime.Thread.{Thread, ok, M, ◌>>=◌}
use fiberexec.FiberOps.Submission.{IsOpen, handler_of}
use fiberexec.AsyncIo.Request.{Request, perform, entry_of}
use fiberexec.AsyncIo.Untimed.{value_or}
use fiberexec.Exchange.{exchange, caught, Session, over, unsent, goes_on, received, replied}
use fiberexec.AsyncIo.Runs.{Lets, Runs}

module _ {k : Kernel} (o : Lets k) where
  module _ (receive : Request) (reply : ℕ → Request) (receive_name reply_name : String)
      (recv-Runs : (t : Thread) → IsOpen t → Runs o receive_name receive t)
      (reply-Runs : (n : ℕ) (t : Thread) → IsOpen t → Runs o reply_name (reply n) t) where
    abbrev answered : ℕ → ℕ → M Bool
    answered n fuel = perform (reply n) none >>= λ _. exchange receive reply fuel

    exchange-over :
        (fuel : ℕ) (res : ℤ) (t t' : Thread)
        → perform receive none k t ≡ value_or receive_name res k t'
        → is_positive res ≡ false
        → caught (exchange receive reply (suc fuel)) k t ≡ (ok true, t')
    unfolding exchange
    exchange-over fuel (negsuc n) t t' ran e = rw ran refl
    exchange-over fuel (pos ℕ.zero) t t' ran e = rw ran refl
    exchange-over fuel (pos (suc n)) t t' ran e = absurd (ground arith)

    exchange-answers :
        (fuel n : ℕ) (t t' : Thread)
        → perform receive none k t ≡ value_or receive_name (pos (suc n)) k t'
        → caught (exchange receive reply (suc fuel)) k t ≡ caught (answered (suc n) fuel) k t'
    unfolding exchange
    exchange-answers fuel n t t' ran = rw ran refl

    answered-fails :
        (n fuel : ℕ) (res : ℤ) (t t' : Thread)
        → perform (reply n) none k t ≡ value_or reply_name res k t'
        → is_neg res ≡ true
        → caught (answered n fuel) k t ≡ (ok true, t')
    answered-fails n fuel (negsuc c) t t' ran e = rw ran refl
    answered-fails n fuel (pos c) t t' ran e = absurd (ground arith)

    answered-goes_on :
        (n fuel : ℕ) (res : ℤ) (t t' : Thread)
        → perform (reply n) none k t ≡ value_or reply_name res k t'
        → is_neg res ≡ false
        → caught (answered n fuel) k t ≡ caught (exchange receive reply fuel) k t'
    answered-goes_on n fuel (pos c) t t' ran e = rw ran refl
    answered-goes_on n fuel (negsuc c) t t' ran e = absurd (ground arith)

    -- The client is done once so many batches were submitted.
    module _ (m : ℕ)
        (quiet : (r : Ring) (h : ℕ) → m ≤ length r.sent → is_positive (k.result r h) ≡ false) where
      abbrev pub Exchanges : ℕ → Thread → Type 0
      Exchanges fuel t =
          (t' : Thread) × (caught (exchange receive reply fuel) k t ≡ (ok true, t'))
          × IsOpen t'
          × Session k receive reply t.ring t'.ring

      -- A receive that gave something came before the client was done.
      rounds_left :
          (fuel n h : ℕ) (r : Ring)
          → m < suc fuel + length r.sent
          → k.result (received k receive reply h r) h ≡ pos (suc n)
          → (1 ≤ fuel) × (m < fuel + (2 + length r.sent))
      rounds_left fuel n h r enough e =
          elim (dec_le m (length (received k receive reply h r).sent)) [
            | yes late ↦
                absurd
                  (ground (arith, quiet (received k receive reply h r) h late, ap is_positive e))
            | no early ↦ (omega (arith, length-snoc r.sent (entry_of receive h ∷ [])), omega arith)
          ]

      -- A message came and is answered, on a thread with the ring after the receive.
      replies :
          (fuel n : ℕ) (t t1 : Thread)
          → perform receive none k t ≡ value_or receive_name (pos (suc n)) k t1
          → IsOpen t1
          → t1.ring ≡ received k receive reply (handler_of t) t.ring
          → k.result (received k receive reply (handler_of t) t.ring) (handler_of t) ≡ pos (suc n)
          → m < suc fuel + length t.ring.sent
          → ((t2 : Thread)
              → IsOpen t2
              → 1 ≤ fuel
              → m < fuel + length t2.ring.sent
              → Exchanges fuel t2)
          → Exchanges (suc fuel) t
      replies fuel n t t1 ran g1 ring1 e enough rest =
          let (t2, ran2, g2, ring2) = reply-Runs (suc n) t1 g1 in
          let (one, more) = rounds_left fuel n (handler_of t) t.ring enough e in
          elim (Bool-cases (
            is_neg (
              k.result (replied k receive reply (suc n) (handler_of t1) t1.ring)
                (handler_of t1)))) [
                  | inl b ↦ (
                    t2,
                    exchange-answers fuel n t t1 ran ∙ answered-fails (suc n) fuel _ t1 t2 ran2 b,
                    g2,
                    subst (Session k receive reply t.ring) (sym ring2) (
                        subst
                          (λ (r : Ring).
                            is_neg (
                                k.result (replied k receive reply (suc n) (handler_of t1) r)
                                  (handler_of t1))
                              ≡ true
                            → Session k receive reply t.ring
                                (replied k receive reply (suc n) (handler_of t1) r))
                          (sym ring1) (unsent t.ring (handler_of t) (handler_of t1) n e) b),
                  )
                  | inr b ↦
                      let (t3, ran3, g3, session) = rest t2 g2 one (
                        omega (
                          arith,
                          ap (λ (r : Ring). length r.sent) ring2,
                          ap (λ (r : Ring). length r.sent) ring1,
                          length-snoc t1.ring.sent (entry_of (reply (suc n)) (handler_of t1) ∷ []),
                          length-snoc t.ring.sent (entry_of receive (handler_of t) ∷ []),
                        )) in
                      (
                        t3,
                        exchange-answers fuel n t t1 ran
                            ∙ answered-goes_on (suc n) fuel _ t1 t2 ran2 b
                            ∙ ran3,
                        g3,
                        subst
                            (λ (r : Ring).
                              is_neg (
                                  k.result (replied k receive reply (suc n) (handler_of t1) r)
                                    (handler_of t1))
                                ≡ false
                              → Session k receive reply
                                  (replied k receive reply (suc n) (handler_of t1) r) t3.ring
                              → Session k receive reply t.ring t3.ring)
                            (sym ring1) (goes_on t.ring t3.ring (handler_of t) (handler_of t1) n e)
                            b
                            (subst (λ (r : Ring). Session k receive reply r t3.ring) ring2 session),
                      )
                ]

      ends_by :
          (fuel : ℕ) (t t1 : Thread) (res : ℤ)
          → perform receive none k t ≡ value_or receive_name res k t1
          → IsOpen t1
          → t1.ring ≡ received k receive reply (handler_of t) t.ring
          → k.result (received k receive reply (handler_of t) t.ring) (handler_of t) ≡ res
          → is_positive res ≡ false
          → Exchanges (suc fuel) t
      ends_by fuel t t1 res ran g1 ring1 e b = (
        t1,
        exchange-over fuel res t t1 ran b,
        g1,
        subst (Session k receive reply t.ring) (sym ring1)
            (over t.ring (handler_of t) (ap is_positive e ∙ b)),
      )

      round :
          (fuel : ℕ) (t t1 : Thread) (res : ℤ)
          → perform receive none k t ≡ value_or receive_name res k t1
          → IsOpen t1
          → t1.ring ≡ received k receive reply (handler_of t) t.ring
          → k.result (received k receive reply (handler_of t) t.ring) (handler_of t) ≡ res
          → m < suc fuel + length t.ring.sent
          → ((t2 : Thread)
              → IsOpen t2
              → 1 ≤ fuel
              → m < fuel + length t2.ring.sent
              → Exchanges fuel t2)
          → Exchanges (suc fuel) t
      round fuel t t1 (pos (suc n)) ran g1 ring1 e enough rest =
          replies fuel n t t1 ran g1 ring1 e enough rest
      round fuel t t1 (pos ℕ.zero) ran g1 ring1 e enough rest =
          ends_by fuel t t1 (pos 0) ran g1 ring1 e refl
      round fuel t t1 (negsuc n) ran g1 ring1 e enough rest =
          ends_by fuel t t1 (negsuc n) ran g1 ring1 e refl

      pub exchange_lem :
          (fuel : ℕ) (t : Thread)
          → IsOpen t
          → 1 ≤ fuel
          → m < fuel + length t.ring.sent
          → Exchanges fuel t
      exchange_lem ℕ.zero t g one enough = absurd (omega arith)
      exchange_lem (suc fuel) t g one enough =
          let (t1, ran, g1, ring1) = recv-Runs t g in
          round fuel t t1 _ ran g1 ring1 refl enough
            (λ t2 g2 one' more. exchange_lem fuel t2 g2 one' more)
