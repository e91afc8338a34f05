-- ===== src/Task/Lifetimes.antt =====
-- The parts of the operations that make, move and end a callable keep memory and view together.
use fiberexec.Base.{
  ℕ, suc, ◌≡◌, ◌≢◌, refl, ap, List, [], ◌∷◌, ◌++◌, none, some, arith, Bool-cases, inl, inr,
}
use mathlib.Core.List.{append-nil}
use fiberexec.Task.{
  Fn, holding, moved_from, Storage, bytes, inline, pointer, sbo, heap, Memory, update, fits,
  construct, destroy, take, vt_move, vt_destroy,
}
use fiberexec.Task.Ops.{View, passed, dropped}
use fiberexec.Task.Represents.{Represents, Refines, Shape, empty, in_buffer, on_heap, shape}

module _ (m : Memory) (v : View) (i : ℕ) (r : Represents m v) where
  after_empty : v.held i ≡ none → m.vtable i ≡ none → Represents m (dropped i v)
  after_empty e t = record {
    holds = λ j. ground (arith, r.holds j);
    owner = r.owner;
    owns = r.owns;
    no_leak = r.no_leak;
    fresh = r.fresh;
    invoked = r.invoked;
    destroyed = rw (e, append-nil) r.destroyed;
  }

  abbrev without_inline : ℕ → Memory
  without_inline f = record m {
    buf = update m.buf i bytes;
    vtable = update m.vtable i none;
    destroyed = m.destroyed ++ (f ∷ []);
  }

  after_inline :
      (f : ℕ)
      → v.held i ≡ some f
      → m.vtable i ≡ some sbo
      → m.buf i ≡ inline (holding f)
      → Represents (without_inline f) (dropped i v)
  after_inline f e t b = record {
    holds = λ j. ground (arith, r.holds j);
    owner = r.owner;
    owns = λ j p h. ground (arith, r.owns j p);
    no_leak = λ p o h. ground (arith, r.no_leak p o);
    fresh = r.fresh;
    invoked = r.invoked;
    destroyed = rw e (ap (λ (l : List ℕ). l ++ (f ∷ [])) r.destroyed);
  }

  abbrev without_heap : ℕ → ℕ → Memory
  without_heap f p = record m {
    allocated = update m.allocated p none;
    vtable = update m.vtable i none;
    destroyed = m.destroyed ++ (f ∷ []);
  }

  after_heap :
      (f p : ℕ)
      → v.held i ≡ some f
      → m.vtable i ≡ some heap
      → m.buf i ≡ pointer p
      → Represents (without_heap f p) (dropped i v)
  after_heap f p e t b = record {
    holds = λ j. ground (arith, r.holds j, r.owns j p, r.owns i p);
    owner = r.owner;
    owns = λ j q h. ground (arith, r.owns j q);
    no_leak = λ q o h. ground (arith, r.no_leak q o, r.owns i q);
    fresh = λ q h. ground (arith, r.fresh q);
    invoked = r.invoked;
    destroyed = rw e (ap (λ (l : List ℕ). l ++ (f ∷ [])) r.destroyed);
  }

  pub destroy-Refines : Refines (destroy i) m (dropped i v)
  unfolding destroy vt_destroy
  destroy-Refines = of_shape (shape r i)
    where
      of_shape : Shape m i (v.held i) → Refines (destroy i) m (dropped i v)
      of_shape (empty e t) = (m, ground arith, after_empty e t)
      of_shape (in_buffer f e t b) = (without_inline f, ground arith, after_inline f e t b)
      of_shape (on_heap f p e t b a) = (without_heap f p, ground arith, after_heap f p e t b)

-- The buffer of a task without a callable does not matter.
pub cleared :
    (m : Memory) (v : View) (i : ℕ) (b : Storage)
    → Represents m v
    → v.held i ≡ none
    → Represents (record m { buf = update m.buf i b }) v
cleared m v i b r e = of_shape (shape r i)
  where
    of_shape : Shape m i (v.held i) → Represents (record m { buf = update m.buf i b }) v
    of_shape (in_buffer f h t c) = absurd (ground arith)
    of_shape (on_heap f p h t c a) = absurd (ground arith)
    of_shape (empty h t) = record {
      holds = λ j. ground (arith, r.holds j);
      owner = r.owner;
      owns = λ j p g. ground (arith, r.owns j p);
      no_leak = λ p o g. ground (arith, r.no_leak p o);
      fresh = r.fresh;
      invoked = r.invoked;
      destroyed = r.destroyed;
    }

-- A callable that passes from `other` to `this`, which has none.
module _ (m : Memory) (v : View) (other this : ℕ) (r : Represents m v) (apart : this ≢ other)
    (vacant : m.vtable this ≡ none) where
  abbrev passed_none : Memory
  passed_none = record m { vtable = update m.vtable this none }

  took_none :
      v.held other ≡ none → m.vtable other ≡ none → Represents passed_none (passed other this v)
  took_none e t = record {
    holds = λ j. ground (arith, r.holds j);
    owner = r.owner;
    owns = λ j p g. ground (arith, r.owns j p);
    no_leak = λ p o g. ground (arith, r.no_leak p o);
    fresh = r.fresh;
    invoked = r.invoked;
    destroyed = r.destroyed;
  }

  abbrev passed_inline : ℕ → Memory
  passed_inline f = record m {
    buf =
        update (update (update m.buf this (inline (holding f))) other (inline moved_from)) other
          bytes;
    vtable = update (update m.vtable this (some sbo)) other none;
  }

  took_inline :
      (f : ℕ)
      → v.held other ≡ some f
      → m.vtable other ≡ some sbo
      → Represents (passed_inline f) (passed other this v)
  took_inline f e t = record {
    holds = λ j. ground (arith, r.holds j, r.holds other);
    owner = r.owner;
    owns = λ j p g. ground (arith, r.owns j p);
    no_leak = λ p o g. ground (arith, r.no_leak p o);
    fresh = r.fresh;
    invoked = r.invoked;
    destroyed = r.destroyed;
  }

  abbrev passed_heap : ℕ → Memory
  passed_heap p = record m {
    buf = update m.buf this (pointer p);
    vtable = update (update m.vtable this (some heap)) other none;
  }

  took_heap :
      (f p : ℕ)
      → v.held other ≡ some f
      → m.vtable other ≡ some heap
      → m.buf other ≡ pointer p
      → m.allocated p ≡ some (holding f)
      → Represents (passed_heap p) (passed other this v)
  took_heap f p e t b a = record {
    holds = λ j. ground (arith, r.holds j, r.holds other);
    owner = update r.owner p this;
    owns = λ j q g. ground (arith, r.owns j q, r.owns other p, r.owns other q);
    no_leak = λ q o g. ground (arith, r.no_leak q o, r.owns other q);
    fresh = r.fresh;
    invoked = r.invoked;
    destroyed = r.destroyed;
  }

  pub take-Refines : Refines (take other this) m (passed other this v)
  unfolding take vt_move
  take-Refines = of_shape (shape r other)
    where
      of_shape : Shape m other (v.held other) → Refines (take other this) m (passed other this v)
      of_shape (empty e t) = (passed_none, ground arith, took_none e t)
      of_shape (in_buffer f e t b) = (passed_inline f, ground arith, took_inline f e t)
      of_shape (on_heap f p e t b a) = (passed_heap p, ground arith, took_heap f p e t b a)

-- A new callable in a task that has none.
module _ (m : Memory) (v : View) (this : ℕ) (f : Fn) (r : Represents m v)
    (none_held : v.held this ≡ none) (vacant : m.vtable this ≡ none) where
  abbrev with_callable : View
  with_callable = record v { held = update v.held this (some f.id) }

  abbrev made_inline : Memory
  made_inline = record m {
    buf = update m.buf this (inline (holding f.id));
    vtable = update m.vtable this (some sbo);
  }

  inline-Represents : Represents made_inline with_callable
  inline-Represents = record {
    holds = λ j. ground (arith, r.holds j);
    owner = r.owner;
    owns = λ j p g. ground (arith, r.owns j p);
    no_leak = λ p o g. ground (arith, r.no_leak p o);
    fresh = r.fresh;
    invoked = r.invoked;
    destroyed = r.destroyed;
  }

  abbrev made_heap : Memory
  made_heap = record m {
    buf = update m.buf this (pointer m.brk);
    vtable = update m.vtable this (some heap);
    allocated = update m.allocated m.brk (some (holding f.id));
    brk = suc m.brk;
  }

  heap-Represents : Represents made_heap with_callable
  heap-Represents = record {
    holds = λ j. ground (arith, r.holds j, r.owns j m.brk);
    owner = update r.owner m.brk this;
    owns = λ j p g. ground (arith, r.owns j p);
    no_leak = λ p o g. ground (arith, r.no_leak p o);
    fresh = λ p g. ground (arith, r.fresh p);
    invoked = r.invoked;
    destroyed = r.destroyed;
  }

  pub construct-Refines : Refines (construct this f) m with_callable
  unfolding construct
  construct-Refines = elim (Bool-cases (fits f)) [
    | inl e ↦ (made_inline, rw e refl, inline-Represents)
    | inr e ↦ (made_heap, rw e refl, heap-Represents)
  ]
