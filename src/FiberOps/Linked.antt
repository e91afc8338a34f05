-- ===== src/FiberOps/Linked.antt =====
-- A linked chain: how its entries are wired to handlers and to each other, and that each result is
-- the one of its own entry.
use fiberexec.Base.{
  ℕ, zero, suc, ◌*◌, ◌≤◌, ◌≡◌, refl, sym, ◌∙◌, ap, is_neg, false, List, [], ◌∷◌, ◌++◌, Option, some,
  length, map, arith, append-snoc, modify, modify-append_cons, ◌==◌, ◌||◌, ltb, not, length-snoc,
}
use fiberexec.Runtime.Uring.{Kernel, Sqe, set_data, edit}
use fiberexec.Runtime.Thread.{ok, Thread}
use fiberexec.FiberOps.{
  wire, link_all, wait_all, set_link, submit_linked_and_wait, k_max_linked_ops,
}
use fiberexec.FiberOps.Stops.{watch_stops_lem}
use fiberexec.FiberOps.Submission.{sent_after, submit_ok}

-- Pointers to `n` entries from place `i` on.
abbrev pub pointers : ℕ → ℕ → List (Option ℕ)
pointers i zero = []
pointers i (suc n) = some i ∷ pointers (suc i) n

-- The addresses of the handlers of a chain, when `f` frames were used before.
abbrev pub handlers : ℕ → List Sqe → List ℕ
handlers f [] = []
handlers f (e ∷ es) = 8 * suc f ∷ handlers (suc f) es

abbrev pub wired : ℕ → List Sqe → List Sqe
wired f [] = []
wired f (e ∷ es) = set_data (8 * suc f) e ∷ wired (suc f) es

-- Every entry but the last carries the link flag.
abbrev pub linked : List Sqe → List Sqe
linked [] = []
linked (e ∷ []) = e ∷ []
linked (e ∷ next ∷ es) = set_link e ∷ linked (next ∷ es)

abbrev used : ℕ → List Sqe → ℕ
used f [] = f
used f (e ∷ es) = used (suc f) es

abbrev at : Thread → List Sqe → Thread
at t es = record t { ring = record { sq = es; sent = t.ring.sent } }

modified :
    (i : ℕ) (pre : List Sqe) (e : Sqe) (es sq : List Sqe) (f : Sqe → Sqe)
    → i ≡ length pre
    → sq ≡ pre ++ e ∷ es
    → modify sq i f ≡ (pre ++ f e ∷ []) ++ es
modified i pre e es sq f at_i holds =
    rw (at_i, holds) (modify-append_cons pre e es f ∙ sym (append-snoc pre (f e) es))

wire_lem :
    (i : ℕ) (pre es sq : List Sqe) (k : Kernel) (t : Thread)
    → i ≡ length pre
    → sq ≡ pre ++ es
    → wire (pointers i (length es)) k (at t sq) ≡ (
      ok (handlers t.frames es),
      record (at t (pre ++ wired t.frames es)) { frames = used t.frames es },
    )
unfolding wire edit
wire_lem i pre [] sq k t at_i holds = λ j. (ok [], at t (holds j))
wire_lem i pre (e ∷ es) sq k t at_i holds =
    let e' = set_data (8 * suc t.frames) e in
    rw
      (wire_lem (suc i) (pre ++ e' ∷ []) es (modify sq i (set_data (8 * suc t.frames))) k
        (record t { frames = suc t.frames }) (ap suc at_i ∙ sym (length-snoc pre e'))
        (modified i pre e es sq _ at_i holds))
      (λ j. (
        ok (handlers t.frames (e ∷ es)),
        record (at t (append-snoc pre e' (wired (suc t.frames) es) j)) {
          frames = used t.frames (e ∷ es);
        },
      ))

link_all_lem :
    (i : ℕ) (pre es sq : List Sqe) (k : Kernel) (t : Thread)
    → i ≡ length pre
    → sq ≡ pre ++ es
    → link_all (pointers i (length es)) k (at t sq) ≡ (ok tt, at t (pre ++ linked es))
unfolding link_all edit
link_all_lem i pre [] sq k t at_i holds = λ j. (ok tt, at t (holds j))
link_all_lem i pre (e ∷ []) sq k t at_i holds = λ j. (ok tt, at t (holds j))
link_all_lem i pre (e ∷ next ∷ es) sq k t at_i holds =
    link_all_lem (suc i) (pre ++ set_link e ∷ []) (next ∷ es) (modify sq i set_link) k t
      (ap suc at_i ∙ sym (length-snoc pre (set_link e)))
      (modified i pre e (next ∷ es) sq _ at_i holds)
    ∙ (λ j. (ok tt, at t (append-snoc pre (set_link e) (linked (next ∷ es)) j)))

wait_all_lem :
    (hs : List ℕ) (k : Kernel) (t : Thread) → wait_all hs k t ≡ (ok (map (k.result t.ring) hs), t)
unfolding wait_all
wait_all_lem [] k t = refl
wait_all_lem (h ∷ hs) k t = rw (wait_all_lem hs k t)

abbrev pub chain : Thread → List Sqe → List Sqe
chain t es = linked (wired t.frames es)

length-wired : (f : ℕ) (es : List Sqe) → length (wired f es) ≡ length es
length-wired f [] = refl
length-wired f (e ∷ es) = ap suc (length-wired (suc f) es)

length-pointers : (i n : ℕ) → length (pointers i n) ≡ n
length-pointers i zero = refl
length-pointers i (suc n) = ap suc (length-pointers (suc i) n)

in_range :
    (n m : ℕ)
    → m ≡ n
    → 1 ≤ n
    → n ≤ k_max_linked_ops
    → (m == 0 || ltb k_max_linked_ops m || not (m == n)) ≡ false
in_range n m e lo hi = ground arith

link_wired :
    (f : ℕ) (es : List Sqe) (k : Kernel) (t : Thread)
    → link_all (pointers 0 (length es)) k (at t (wired f es)) ≡ (ok tt, at t (linked (wired f es)))
link_wired f es k t =
    rw (length-wired f es) at (link_all_lem 0 [] (wired f es) (wired f es) k t refl refl)

-- For a chain of one to eight prepared entries that are all that the queue holds, and a submission that
-- the kernel takes: one batch is submitted, in order, in which each entry carries the address of a
-- handler of its own and each but the last carries the link flag; and the results are those of
-- the handlers, in the order of the entries.
pub submit_linked_and_wait_lem :
    (es : List Sqe) (k : Kernel) (t : Thread)
    → 1 ≤ length es
    → length es ≤ k_max_linked_ops
    → t.ring.sq ≡ es
    → is_neg (k.submit_ret (record { sq = chain t es; sent = t.ring.sent })) ≡ false
    → ((submit_linked_and_wait (pointers 0 (length es)) (length es) k t).0
        ≡ ok (map (k.result (sent_after t.ring (chain t es))) (handlers t.frames es)))
      × ((submit_linked_and_wait (pointers 0 (length es)) (length es) k t).1.ring
          ≡ sent_after t.ring (chain t es))
unfolding submit_linked_and_wait
submit_linked_and_wait_lem es k t some_entry few holds ret =
    rw
      (
        in_range (length es) (length (pointers 0 (length es))) (length-pointers 0 (length es))
            some_entry few,
        wire_lem 0 [] es t.ring.sq k t refl holds,
      )
      (rw
        (
          link_wired t.frames es k (record t { frames = used t.frames es }),
          submit_ok k (at t (chain t es)).ring ret,
          ret,
          watch_stops_lem (handlers t.frames es) _ k _,
          wait_all_lem (handlers t.frames es) k _,
        )
        (refl, refl))
