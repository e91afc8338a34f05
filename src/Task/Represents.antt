-- ===== src/Task/Represents.antt =====
-- When the memory is as a view says: each task has the callable that the view gives it, wherever it is
-- stored, and every object on the heap belongs to one task, which points to it.
use fiberexec.Base.{ℕ, ◌≤◌, ◌<◌, ◌≡◌, refl, ap, List, [], ◌∷◌, ◌++◌, Option, none, some, arith}
use fiberexec.Task.{
  Object, holding, moved_from, Storage, bytes, inline, pointer, Vtable, sbo, heap, Memory, M,
  invoke, vt_invoke,
}
use fiberexec.Task.Ops.{View}

-- The callable of an object.
abbrev pub content : Option Object → Option (Option ℕ)
content (some (holding f)) = some (some f)
content (some moved_from) = none
content none = none

abbrev pub inline_content : Storage → Option (Option ℕ)
inline_content (inline o) = content (some o)
inline_content (pointer p) = none
inline_content bytes = none

abbrev pub owned_in : Storage → Option ℕ
owned_in (pointer p) = some p
owned_in (inline o) = none
owned_in bytes = none

abbrev pub heap_content : Memory → Option ℕ → Option (Option ℕ)
heap_content m (some p) = content (m.allocated p)
heap_content m none = none

-- The callable of a task, none of the outer option where the buffer does not hold what the table says.
abbrev pub callable_of : Memory → ℕ → Option Vtable → Option (Option ℕ)
callable_of m i none = some none
callable_of m i (some sbo) = inline_content (m.buf i)
callable_of m i (some heap) = heap_content m (owned_in (m.buf i))

-- The heap object that a task owns.
abbrev pub owned_by : Storage → Option Vtable → Option ℕ
owned_by b none = none
owned_by b (some sbo) = none
owned_by b (some heap) = owned_in b

abbrev pub owned : Memory → ℕ → Option ℕ
owned m i = owned_by (m.buf i) (m.vtable i)

pub record Represents (m : Memory) (v : View) : Type 0 where
  pub holds : (i : ℕ) → callable_of m i (m.vtable i) ≡ some (v.held i)
  pub owner : ℕ → ℕ
  pub owns : (i p : ℕ) → owned m i ≡ some p → (owner p ≡ i) × (p < m.brk)
  pub no_leak : (p : ℕ) (o : Object) → m.allocated p ≡ some o → owned m (owner p) ≡ some p
  pub fresh : (p : ℕ) → m.brk ≤ p → m.allocated p ≡ none
  pub invoked : m.invoked ≡ v.invoked
  pub destroyed : m.destroyed ≡ v.destroyed

abbrev pub Refines : M (Unit {0}) → Memory → View → Type 0
Refines f m v = (m' : Memory) × (f m ≡ some (tt, m')) × Represents m' v

-- The cases of a task that the view describes.
pub data Shape (m : Memory) (i : ℕ) (h : Option ℕ) : Type 0 where
  empty : h ≡ none → m.vtable i ≡ none → Shape m i h
  in_buffer :
      (f : ℕ) → h ≡ some f → m.vtable i ≡ some sbo → m.buf i ≡ inline (holding f) → Shape m i h
  on_heap :
      (f p : ℕ)
      → h ≡ some f
      → m.vtable i ≡ some heap
      → m.buf i ≡ pointer p
      → m.allocated p ≡ some (holding f)
      → Shape m i h

module _ (m : Memory) (i : ℕ) (h : Option ℕ) where
  shape_inline :
      (b : Storage) → m.vtable i ≡ some sbo → m.buf i ≡ b → inline_content b ≡ some h → Shape m i h
  shape_inline bytes v e c = absurd (ground arith)
  shape_inline (pointer p) v e c = absurd (ground arith)
  shape_inline (inline moved_from) v e c = absurd (ground arith)
  shape_inline (inline (holding f)) v e c = in_buffer f (ground arith) v e

  shape_object :
      (p : ℕ) (o : Option Object)
      → m.vtable i ≡ some heap
      → m.buf i ≡ pointer p
      → m.allocated p ≡ o
      → content o ≡ some h
      → Shape m i h
  shape_object p none v b e c = absurd (ground arith)
  shape_object p (some moved_from) v b e c = absurd (ground arith)
  shape_object p (some (holding f)) v b e c = on_heap f p (ground arith) v b e

  shape_heap :
      (b : Storage)
      → m.vtable i ≡ some heap
      → m.buf i ≡ b
      → heap_content m (owned_in b) ≡ some h
      → Shape m i h
  shape_heap bytes v e c = absurd (ground arith)
  shape_heap (inline o) v e c = absurd (ground arith)
  shape_heap (pointer p) v e c = shape_object p (m.allocated p) v e refl c

  shape_of : (t : Option Vtable) → m.vtable i ≡ t → callable_of m i t ≡ some h → Shape m i h
  shape_of none v c = empty (ground arith) v
  shape_of (some sbo) v c = shape_inline (m.buf i) v refl c
  shape_of (some heap) v c = shape_heap (m.buf i) v refl c

pub shape : {m : Memory} {v : View} (r : Represents m v) (i : ℕ) → Shape m i (v.held i)
shape {m} {v} r i = shape_of m i (v.held i) (m.vtable i) refl (r.holds i)

unfoldable pub ran : Memory → ℕ → Memory
ran m f = record m { invoked = m.invoked ++ (f ∷ []) }

pub ran-Represents :
    (m : Memory) (v : View) (f : ℕ)
    → Represents m v
    → Represents (ran m f) (record v { invoked = v.invoked ++ (f ∷ []) })
unfolding ran
ran-Represents m v f r = record {
  holds = r.holds;
  owner = r.owner;
  owns = r.owns;
  no_leak = r.no_leak;
  fresh = r.fresh;
  invoked = ap (λ (l : List ℕ). l ++ (f ∷ [])) r.invoked;
  destroyed = r.destroyed;
}

pub invoke-ran : (m : Memory) (i f : ℕ) → Shape m i (some f) → invoke i m ≡ some (tt, ran m f)
unfolding invoke ran vt_invoke
invoke-ran m i f (empty e v) = absurd (ground arith)
invoke-ran m i f (in_buffer g e v b) = ground arith
invoke-ran m i f (on_heap g p e v b a) = ground arith
