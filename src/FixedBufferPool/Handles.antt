-- ===== src/FixedBufferPool/Handles.antt =====
-- Handles as objects that are moved, assigned and destroyed: `fixed_buffer` in src/fixed_buffer_pool.cpp.
use fiberexec.Base.{
  ℕ, ◌+◌, ◌≡◌, ◌⊎◌, inl, inr, sym, subst, refl, ap, ◌∙◌, false, List, [], ◌∷◌, ◌++◌, Option, none,
  some, length, length-append, arith, dec_lt,
}
use mathlib.Core.List.{append_assoc}
use fiberexec.Base.Range.{count, count-append, range}
use fiberexec.Channel.Boost.{BoostChannel, IsDocumented}
use fiberexec.Channel.FreeList.{IsFreeList}
use fiberexec.Runtime.Thread.{ok}
use fiberexec.FixedBufferPool.{FixedBuffer, Pool, borrow, return_buffer, move, release, assign}
use fiberexec.FixedBufferPool.Ownership.{
  borrow_lem, borrow-waits, return_lem, same_answer, same_pool,
}

-- The buffers that a list of handles owns.
abbrev pub owned : List FixedBuffer → List ℕ
owned [] = []
owned (h ∷ hs) = release h ++ owned hs

-- Gives back what a destructor or an assignment gives back; none where the fiber suspends.
abbrev pub give_back : {C : BoostChannel ℕ} → List ℕ → Pool C → Option (Pool C)
give_back [] p = some p
give_back {C} (i ∷ is) p = elim (return_buffer C i p) [ none ↦ none | some p' ↦ give_back is p' ]

pub record System (C : BoostChannel ℕ) : Type 0 where
  pub pool : Pool C
  pub handles : List FixedBuffer

module _ {C : BoostChannel ℕ} where
  -- An assignment is of two handles, in either place.
  pub data Step (s : System C) : System C → Type 0 where
    borrows :
        (b : FixedBuffer) (p : Pool C)
        → borrow C s.pool ≡ some (ok b, p)
        → Step s (record { pool = p; handles = b ∷ s.handles })
    moves :
        (xs ys : List FixedBuffer) (h : FixedBuffer)
        → s.handles ≡ xs ++ h ∷ ys
        → Step s (record s { handles = (move h).0 ∷ (xs ++ (move h).1 ∷ ys) })
    assigns_from_later :
        (xs ys zs : List FixedBuffer) (this other : FixedBuffer) (p : Pool C)
        → s.handles ≡ xs ++ this ∷ (ys ++ other ∷ zs)
        → give_back (assign false this other).0 s.pool ≡ some p
        → Step s (record {
          pool = p;
          handles = xs ++ (assign false this other).1 ∷ (ys ++ (assign false this other).2 ∷ zs);
        })
    assigns_from_earlier :
        (xs ys zs : List FixedBuffer) (this other : FixedBuffer) (p : Pool C)
        → s.handles ≡ xs ++ other ∷ (ys ++ this ∷ zs)
        → give_back (assign false this other).0 s.pool ≡ some p
        → Step s (record {
          pool = p;
          handles = xs ++ (assign false this other).2 ∷ (ys ++ (assign false this other).1 ∷ zs);
        })
    destroys :
        (xs ys : List FixedBuffer) (h : FixedBuffer) (p : Pool C)
        → s.handles ≡ xs ++ h ∷ ys
        → give_back (release h) s.pool ≡ some p
        → Step s (record { pool = p; handles = xs ++ ys })

  pub data Reach (s : System C) : System C → Type 0 where
    here : Reach s s
    later : {t u : System C} → Reach s t → Step t u → Reach s u

-- Lists with the same members as often are the same to a free list.
record Same (xs ys : List ℕ) : Type 0 where
  size : length xs ≡ length ys
  often : (id : ℕ) → count id xs ≡ count id ys

owned-append : (xs ys : List FixedBuffer) → Same (owned (xs ++ ys)) (owned xs ++ owned ys)
owned-append [] ys = record { size = refl; often = λ id. refl }
owned-append (h ∷ xs) ys =
    let rest = owned-append xs ys in
    record {
      size = omega (
        arith,
        rest.size,
        length-append (release h) (owned (xs ++ ys)),
        length-append (release h ++ owned xs) (owned ys),
        length-append (release h) (owned xs),
        length-append (owned xs) (owned ys),
      );
      often = λ id. omega (
        arith,
        rest.often id,
        count-append id (release h) (owned (xs ++ ys)),
        count-append id (release h ++ owned xs) (owned ys),
        count-append id (release h) (owned xs),
        count-append id (owned xs) (owned ys),
      );
    }

release-engaged : {x : ℕ} (b : FixedBuffer) → b.pool ≡ some x → release b ≡ b.idx ∷ []
unfolding release
release-engaged b e = rw e refl

module _ {C : BoostChannel ℕ} (laws : IsDocumented C) where
  IsFreeList-Same :
      {n : ℕ} {ch : C.Chan} {xs ys : List ℕ}
      → IsFreeList laws n ch xs
      → Same xs ys
      → IsFreeList laws n ch ys
  IsFreeList-Same f s = record {
    opened = f.opened;
    fits = f.fits;
    total = omega (arith, f.total, s.size);
    each = λ id. omega (arith, f.each id, s.often id);
  }

  -- What is given back stands first among what is owned.
  give_back_lem :
      {n : ℕ} (is : List ℕ) (p : Pool C) (rest : List ℕ)
      → IsFreeList laws n p.free_list (is ++ rest)
      → (p' : Pool C) × (give_back is p ≡ some p') × IsFreeList laws n p'.free_list rest
  give_back_lem [] p rest f = (p, refl, f)
  give_back_lem (i ∷ is) p rest f =
      let (p1, e, g) = return_lem laws p [] i (is ++ rest) f in
      let (p2, e', g') = give_back_lem is p1 rest g in (p2, rw (give_back, e) e', g')

  abbrev Inv : ℕ → System C → Type 0
  Inv n s = IsFreeList laws n s.pool.free_list (owned s.handles)

  count-owned :
      (id : ℕ) (xs : List FixedBuffer) (h : FixedBuffer) (ys : List FixedBuffer)
      → count id (owned (xs ++ h ∷ ys))
        ≡ count id (owned xs) + count id (release h) + count id (owned ys)
  count-owned id xs h ys = omega (
    arith,
    (owned-append xs (h ∷ ys)).often id,
    count-append id (owned xs) (release h ++ owned ys),
    count-append id (release h) (owned ys),
  )

  length-owned :
      (xs : List FixedBuffer) (h : FixedBuffer) (ys : List FixedBuffer)
      → length (owned (xs ++ h ∷ ys)) ≡ length (owned xs) + length (release h) + length (owned ys)
  length-owned xs h ys = omega (
    arith,
    (owned-append xs (h ∷ ys)).size,
    length-append (owned xs) (release h ++ owned ys),
    length-append (release h) (owned ys),
  )

  -- A handle at one place: its buffer can be given back without suspending, and leaves the rest.
  gives_back :
      {n : ℕ} (s : System C) (xs ys : List FixedBuffer) (h : FixedBuffer) (rest : List ℕ)
      → Inv n s
      → s.handles ≡ xs ++ h ∷ ys
      → length rest ≡ length (owned xs) + length (owned ys)
      → ((id : ℕ) → count id rest ≡ count id (owned xs) + count id (owned ys))
      → (p : Pool C) × (give_back (release h) s.pool ≡ some p) × IsFreeList laws n p.free_list rest
  gives_back s xs ys h rest f e size often = give_back_lem (release h) s.pool rest (
      IsFreeList-Same f (record {
        size = omega (
          arith,
          ap (λ (hs : List FixedBuffer). length (owned hs)) e,
          length-owned xs h ys,
          length-append (release h) rest,
          size,
        );
        often = λ id. omega (
          arith,
          ap (λ (hs : List FixedBuffer). count id (owned hs)) e,
          count-owned id xs h ys,
          count-append id (release h) rest,
          often id,
        );
      }))

  borrowed-Inv :
      {n : ℕ} (s : System C) (b : FixedBuffer) (p : Pool C)
      → Inv n s
      → borrow C s.pool ≡ some (ok b, p)
      → IsFreeList laws n p.free_list (release b ++ owned s.handles)
  borrowed-Inv {n} s b p f e = elim (dec_lt (length (owned s.handles)) n) [
    | yes l ↦
        let (b', p', e', q, g) = borrow_lem laws s.pool f l in
        subst
          (λ (x : FixedBuffer × Pool C).
            IsFreeList laws n x.1.free_list (release x.0 ++ owned s.handles))
          (same_answer laws e' e)
          (subst (λ (l : List ℕ). IsFreeList laws n p'.free_list (l ++ owned s.handles))
            (sym (release-engaged b' q)) g)
    | no l ↦ let w = borrow-waits laws s.pool f (omega (arith, f.total)) in absurd (ground arith)
  ]

  moved-Inv :
      {n : ℕ} (s : System C) (xs ys : List FixedBuffer) (h : FixedBuffer)
      → Inv n s
      → s.handles ≡ xs ++ h ∷ ys
      → IsFreeList laws n s.pool.free_list (owned ((move h).0 ∷ (xs ++ (move h).1 ∷ ys)))
  unfolding move release
  moved-Inv s xs ys h f e = IsFreeList-Same f (record {
    size = omega (
      arith,
      ap (λ (hs : List FixedBuffer). length (owned hs)) e,
      length-owned xs h ys,
      length-owned xs (move h).1 ys,
      length-append (release h) (owned (xs ++ (move h).1 ∷ ys)),
    );
    often = λ id. omega (
      arith,
      ap (λ (hs : List FixedBuffer). count id (owned hs)) e,
      count-owned id xs h ys,
      count-owned id xs (move h).1 ys,
      count-append id (release h) (owned (xs ++ (move h).1 ∷ ys)),
    );
  })

  -- An assignment from a handle in a later place, and from one in an earlier place.
  later_given :
      {n : ℕ} (s : System C) (xs ys zs : List FixedBuffer) (this other : FixedBuffer)
      → Inv n s
      → s.handles ≡ xs ++ this ∷ (ys ++ other ∷ zs)
      → (p : Pool C) × (give_back (assign false this other).0 s.pool ≡ some p)
        × IsFreeList laws n p.free_list
            (owned (xs ++ (assign false this other).1 ∷ (ys ++ (assign false this other).2 ∷ zs)))
  unfolding assign release
  later_given s xs ys zs this other f e =
      gives_back s xs (ys ++ other ∷ zs) this _ f e
        (omega (
          arith,
          length-owned xs other (ys ++ (assign false this other).2 ∷ zs),
          length-owned ys (assign false this other).2 zs,
          length-owned ys other zs,
        ))
        (λ id. omega (
          arith,
          count-owned id xs other (ys ++ (assign false this other).2 ∷ zs),
          count-owned id ys (assign false this other).2 zs,
          count-owned id ys other zs,
        ))

  earlier_given :
      {n : ℕ} (s : System C) (xs ys zs : List FixedBuffer) (this other : FixedBuffer)
      → Inv n s
      → s.handles ≡ xs ++ other ∷ (ys ++ this ∷ zs)
      → (p : Pool C) × (give_back (assign false this other).0 s.pool ≡ some p)
        × IsFreeList laws n p.free_list
            (owned (xs ++ (assign false this other).2 ∷ (ys ++ (assign false this other).1 ∷ zs)))
  unfolding assign release
  earlier_given s xs ys zs this other f e =
      gives_back s (xs ++ other ∷ ys) zs this _ f
        (e ∙ sym (append_assoc xs (other ∷ ys) (this ∷ zs)))
        (omega (
          arith,
          length-owned xs (assign false this other).2 (ys ++ other ∷ zs),
          length-owned ys other zs,
          length-owned xs other ys,
        ))
        (λ id. omega (
          arith,
          count-owned id xs (assign false this other).2 (ys ++ other ∷ zs),
          count-owned id ys other zs,
          count-owned id xs other ys,
        ))

  destroyed :
      {n : ℕ} (s : System C) (xs ys : List FixedBuffer) (h : FixedBuffer)
      → Inv n s
      → s.handles ≡ xs ++ h ∷ ys
      → (p : Pool C) × (give_back (release h) s.pool ≡ some p)
        × IsFreeList laws n p.free_list (owned (xs ++ ys))
  destroyed s xs ys h f e =
      gives_back s xs ys h (owned (xs ++ ys)) f e
        (omega (arith, (owned-append xs ys).size, length-append (owned xs) (owned ys)))
        (λ id. omega (arith, (owned-append xs ys).often id, count-append id (owned xs) (owned ys)))

  -- The pool that a step got is the one that the lemmas speak of.
  with_pool :
      {n : ℕ} {o : Option (Pool C)} {lent : List ℕ} (p : Pool C)
      → o ≡ some p
      → ((q : Pool C) × (o ≡ some q) × IsFreeList laws n q.free_list lent)
      → IsFreeList laws n p.free_list lent
  with_pool {n} {lent = lent} p e (q, e', f) =
      subst (λ (x : Pool C). IsFreeList laws n x.free_list lent) (same_pool laws e' e) f

  Step-Inv : (n : ℕ) {s t : System C} → Step s t → Inv n s → Inv n t
  Step-Inv n {s} (borrows b p e) f = borrowed-Inv s b p f e
  Step-Inv n {s} (moves xs ys h e) f = moved-Inv s xs ys h f e
  Step-Inv n {s} (assigns_from_later xs ys zs this other p e r) f =
      with_pool p r (later_given s xs ys zs this other f e)
  Step-Inv n {s} (assigns_from_earlier xs ys zs this other p e r) f =
      with_pool p r (earlier_given s xs ys zs this other f e)
  Step-Inv n {s} (destroys xs ys h p e r) f = with_pool p r (destroyed s xs ys h f e)

  -- All of the `n` buffers are free, and there is no handle.
  pub record IsNew (n : ℕ) (s : System C) : Type 0 where
    pub free : IsFreeList laws n s.pool.free_list []
    pub no_handles : s.handles ≡ []

  Reach-Inv : (n : ℕ) {s t : System C} → IsNew n s → Reach s t → Inv n t
  Reach-Inv n {s} new here =
      subst (λ (hs : List FixedBuffer). IsFreeList laws n s.pool.free_list (owned hs))
        (sym new.no_handles) new.free
  Reach-Inv n new (later r st) = Step-Inv n st (Reach-Inv n new r)

  -- In every state that a new pool of `n` buffers reaches by borrows and by moves, assignments and
  -- destructions of the handles in any order: each buffer is free or owned by one handle, once; and
  -- the destructor of any handle, and its assignment from any other in a later or an earlier place,
  -- gives back what the handle owned without suspending.
  pub owned_once :
      {n : ℕ} {s t : System C}
      → IsNew n s
      → Reach s t
      → ((id : ℕ)
          → count id (laws.items t.pool.free_list) + count id (owned t.handles)
            ≡ count id (range n))
        × ((xs ys : List FixedBuffer) (h : FixedBuffer)
            → t.handles ≡ xs ++ h ∷ ys
            → (p : Pool C) × (give_back (release h) t.pool ≡ some p))
        × ((xs ys zs : List FixedBuffer) (this other : FixedBuffer)
            → (t.handles ≡ xs ++ this ∷ (ys ++ other ∷ zs))
              ⊎ (t.handles ≡ xs ++ other ∷ (ys ++ this ∷ zs))
            → (p : Pool C) × (give_back (assign false this other).0 t.pool ≡ some p))
  owned_once {n} {t = t} new r =
      let f = Reach-Inv n new r in
      (
        f.each,
        λ xs ys h e. let (p, q, _) = destroyed t xs ys h f e in (p, q),
        λ xs ys zs this other w. elim w [
          | inl e ↦ let (p, q, _) = later_given t xs ys zs this other f e in (p, q)
          | inr e ↦ let (p, q, _) = earlier_given t xs ys zs this other f e in (p, q)
        ],
      )
