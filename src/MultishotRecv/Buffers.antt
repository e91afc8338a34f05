-- ===== src/MultishotRecv/Buffers.antt =====
-- Each buffer is in one place, and live handles have storage of their own.
use fiberexec.Base.{
  ℕ, suc, ◌+◌, ◌*◌, ◌≤◌, ℤ, pos, ◌≡◌, ◌⊎◌, ◌∙◌, ap, is_positive, true, false, List, [], ◌∷◌, ◌++◌,
  arith,
}
use fiberexec.Base.Range.{range, count, count-append}
use fiberexec.Base.Slots.{count-split, slots_apart}
use fiberexec.Runtime.Abi.{has_buffer, buffer_of}
use fiberexec.Runtime.Uring.{Ring, Kernel}
use fiberexec.FiberOps.{StopToken}
use fiberexec.MultishotRecv.Buffer.{Item, ReceivedBuffer, data_of}
use fiberexec.MultishotRecv.{Recv, complete, next_start, next_resume, return_buffer}
use fiberexec.MultishotRecv.System.{
  System, Step, arrives, ends_with_buffer, ends_without, calls, resumes, releases, Reach, here,
  later, IsNew, ids, without_front, received, given,
}

-- How often a buffer is in the ring or pending, and how often it is anywhere.
abbrev kept : ℕ → Recv → ℕ
kept id a = count id a.ring_bufs + count id (ids a.pending)

abbrev pub places : ℕ → System → ℕ
places id s = kept id s.obj + count id s.lent

count-ids_snoc :
    (id : ℕ) (items : List Item) (item : Item)
    → count id (ids (items ++ (item ∷ []))) ≡ count id (ids items) + count id (item.buf_id ∷ [])
count-ids_snoc id [] item = omega arith
count-ids_snoc id (x ∷ xs) item = omega (arith, count-ids_snoc id xs item)

-- A message takes its buffer from the ring to the queue.
kept-message :
    (k : Kernel) (id n flags : ℕ) (a : Recv) (r : Ring)
    → kept id (complete k (pos (suc n)) flags a r).0 ≡ kept id a + count id (buffer_of flags ∷ [])
unfolding complete
kept-message k id n flags a r =
    ground (arith, count-ids_snoc id a.pending (record { buf_id = buffer_of flags; size = suc n }))

kept-returned :
    (id buf : ℕ) (a : Recv) → kept id (return_buffer buf a) ≡ kept id a + count id (buf ∷ [])
unfolding return_buffer
kept-returned id buf a = omega (arith, count-append id a.ring_bufs (buf ∷ []))

-- An end of stream or an error gives the buffer back that came with it.
kept-end_with :
    (k : Kernel) (id : ℕ) (res : ℤ) (flags : ℕ) (a : Recv) (r : Ring)
    → is_positive res ≡ false
    → has_buffer flags ≡ true
    → kept id (complete k res flags a r).0 ≡ kept id a + count id (buffer_of flags ∷ [])
unfolding complete return_buffer
kept-end_with k id res flags a r e h =
    ground (arith, count-append id a.ring_bufs (buffer_of flags ∷ []))

kept-end_without :
    (k : Kernel) (id : ℕ) (res : ℤ) (flags : ℕ) (a : Recv) (r : Ring)
    → is_positive res ≡ false
    → has_buffer flags ≡ false
    → kept id (complete k res flags a r).0 ≡ kept id a
unfolding complete return_buffer
kept-end_without k id res flags a r e h = ground arith

kept-start :
    (id : ℕ) (st : StopToken) (a : Recv)
    → kept id (next_start st a).1 + count id (ids (given (next_start st a).0)) ≡ kept id a
unfolding next_start
kept-start id st a = ground arith

kept-resume :
    (id : ℕ) (a : Recv)
    → kept id (next_resume a).1 + count id (ids (received (next_resume a).0)) ≡ kept id a
unfolding next_resume
kept-resume id a = ground arith

kept-front :
    (id buf : ℕ) (rest : List ℕ) (a : Recv)
    → a.ring_bufs ≡ buf ∷ rest
    → kept id (without_front rest a) + count id (buf ∷ []) ≡ kept id a
kept-front id buf rest a e = ground arith

Step-places : {k : Kernel} (id : ℕ) {s t : System} → Step k s t → places id t ≡ places id s
Step-places {k} id {s} (arrives n flags rest _ e) = omega (
  arith,
  kept-message k id n flags (without_front rest s.obj) s.ring,
  kept-front id (buffer_of flags) rest s.obj e,
)
Step-places {k} id {s} (ends_with_buffer res flags rest _ e h f) = omega (
  arith,
  kept-end_with k id res flags (without_front rest s.obj) s.ring e h,
  kept-front id (buffer_of flags) rest s.obj f,
)
Step-places {k} id {s} (ends_without res flags _ e h) =
    omega (arith, kept-end_without k id res flags s.obj s.ring e h)
Step-places id {s} (calls st _) =
    omega
      (arith, kept-start id st s.obj, count-append id s.lent (ids (given (next_start st s.obj).0)))
Step-places id {s} (resumes _ _) =
    omega
      (arith, kept-resume id s.obj, count-append id s.lent (ids (received (next_resume s.obj).0)))
Step-places id {s} (releases xs buf ys e) =
    omega (arith, kept-returned id buf s.obj, ap (count id) e, count-split id buf xs ys)

-- In every state that a new receiver of `n` buffers reaches, each buffer below `n` is in exactly one
-- place, once: in the kernel's ring, with a pending message, or with a live handle; no other buffer
-- is anywhere.
pub each_buffer_once :
    {k : Kernel} {n : ℕ} {s t : System}
    → IsNew n s
    → Reach k s t
    → (id : ℕ)
    → count id t.obj.ring_bufs + count id (ids t.obj.pending) + count id t.lent ≡ count id (range n)
each_buffer_once {s} new here id = ground arith
each_buffer_once new (later r st) id = Step-places id st ∙ each_buffer_once new r id

-- In every state that a new receiver of `n` buffers reaches, for a live handle, whose message is no
-- longer than a buffer: its bytes lie in the storage, and the bytes of any other live handle, as long
-- at most, are elsewhere.
pub handles_apart :
    {k : Kernel} {n : ℕ} {s t : System} (buf_size : ℕ) (b c : ReceivedBuffer) (xs ys : List ℕ)
    → IsNew n s
    → Reach k s t
    → t.lent ≡ xs ++ b.buf_id ∷ ys
    → 1 ≤ count c.buf_id (xs ++ ys)
    → b.size ≤ buf_size
    → c.size ≤ buf_size
    → ((data_of buf_size b).ptr + (data_of buf_size b).size ≤ n * buf_size)
      × (((data_of buf_size b).ptr + (data_of buf_size b).size ≤ (data_of buf_size c).ptr)
          ⊎ ((data_of buf_size c).ptr + (data_of buf_size c).size ≤ (data_of buf_size b).ptr))
unfolding data_of
handles_apart {n} {t} buf_size b c xs ys new r e other bs cs =
    slots_apart n buf_size xs b.buf_id ys c.buf_id b.size c.size
      (λ id. omega (arith, each_buffer_once new r id, ap (count id) e)) other bs cs
