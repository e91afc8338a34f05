-- ===== src/Task.antt =====
-- include/fiberexec/task.hpp: a callable with its type erased, stored in the buffer of the task or on
-- the heap. Tasks, and the heap's objects, are at addresses in a memory.
pub mod Ops
pub mod Represents
pub mod Lifetimes
pub mod Refines
pub mod Erasure
pub mod Once
use fiberexec.Base.{
  ℕ, suc, ◌==◌, leb, Bool, true, false, not, ◌&&◌, List, [], ◌∷◌, ◌++◌, Option, none, some,
  if◌then◌else◌, is_some,
}

-- A callable: what it does, as a number, and what `task` reads of its type.
pub record Fn : Type 0 where
  pub id : ℕ
  pub size : ℕ
  pub align : ℕ
  pub nothrow_move : Bool

-- An object of such a type. What it captured passes to the object that is constructed from it by move.
pub data Object : Type 0 where
  holding : ℕ → Object
  moved_from : Object

-- The bytes of `buf_`: no object, a callable, or a pointer to one.
pub data Storage : Type 0 where
  bytes : Storage
  inline : Object → Storage
  pointer : ℕ → Storage

-- The two tables of functions, `sbo_vtable_` and `heap_vtable_`.
pub data Vtable : Type 0 where
  sbo heap : Vtable

-- `buf` and `vtable` are the members of the task at an address, `allocated` the objects on the heap,
-- all below `brk`. `invoked` and `destroyed` are the callables that ran and that were destroyed,
-- oldest first.
pub record Memory : Type 0 where
  pub buf : ℕ → Storage
  pub vtable : ℕ → Option Vtable
  pub allocated : ℕ → Option Object
  pub brk : ℕ
  pub invoked : List ℕ
  pub destroyed : List ℕ

-- None is undefined behaviour.
abbrev pub M : Type 0 → Type 0
M A = Memory → Option (A × Memory)

infixl 5 ◌>>=◌ ◌>>◌
abbrev pub ◌>>=◌ : {A B : Type 0} → M A → (A → M B) → M B
◌>>=◌ m f s = elim (m s) [ none ↦ none | some (a, s') ↦ f a s' ]

abbrev pub ◌>>◌ : {B : Type 0} → M (Unit {0}) → M B → M B
m >> n = m >>= λ _. n

abbrev pub pure : {A : Type 0} → A → M A
pure a s = some (a, s)

abbrev pub update {ℓ} : {A : Type ℓ} → (ℕ → A) → ℕ → A → ℕ → A
update f i v j = if j == i then v else f j

abbrev pub set_buf : ℕ → Storage → M (Unit {0})
set_buf i v s = some (tt, record s { buf = update s.buf i v })

abbrev pub set_vtable : ℕ → Option Vtable → M (Unit {0})
set_vtable i v s = some (tt, record s { vtable = update s.vtable i v })

abbrev pub get_vtable : ℕ → M (Option Vtable)
get_vtable i s = some (s.vtable i, s)

-- `std::launder` of the buffer as an object, and as a pointer: undefined where there is none.
abbrev pub object_in : ℕ → M Object
object_in i s = elim (s.buf i) [ inline o ↦ some (o, s) | _ ↦ none ]

abbrev pub pointer_in : ℕ → M ℕ
pointer_in i s = elim (s.buf i) [ pointer p ↦ some (p, s) | _ ↦ none ]

abbrev pub load : ℕ → M Object
load p s = elim (s.allocated p) [ some o ↦ some (o, s) | none ↦ none ]

abbrev pub allocate : Object → M ℕ
allocate o s =
    some (s.brk, record s { allocated = update s.allocated s.brk (some o); brk = suc s.brk })

abbrev pub free : ℕ → M (Unit {0})
free p s = some (tt, record s { allocated = update s.allocated p none })

-- A call of an object. One that was moved from has nothing to call.
abbrev pub call : Object → M (Unit {0})
call (holding f) s = some (tt, record s { invoked = s.invoked ++ (f ∷ []) })
call moved_from s = none

-- The destructor of an object.
abbrev pub finish : Object → M (Unit {0})
finish (holding f) s = some (tt, record s { destroyed = s.destroyed ++ (f ∷ []) })
finish moved_from s = some (tt, s)

abbrev pub k_buf_size : ℕ
k_buf_size = 64

-- `alignof(std::max_align_t)` on x86-64 Linux.
abbrev pub k_buf_align : ℕ
k_buf_align = 16

unfoldable pub fits : Fn → Bool
fits f = leb f.size k_buf_size && leb f.align k_buf_align && f.nothrow_move

-- The constructor from a callable, at an address.
unfoldable pub construct : ℕ → Fn → M (Unit {0})
unfolding fits
construct this f =
    if fits f
    then (do set_buf this (inline (holding f.id)); set_vtable this (some sbo))
    else (do p ← allocate (holding f.id); set_buf this (pointer p); set_vtable this (some heap))

-- The functions of the tables.
unfoldable pub vt_invoke : Vtable → ℕ → M (Unit {0})
vt_invoke sbo this = do o ← object_in this; call o
vt_invoke heap this = do p ← pointer_in this; o ← load p; call o

unfoldable pub vt_move : Vtable → (src dst : ℕ) → M (Unit {0})
vt_move sbo src dst = do
  o ← object_in src
  set_buf dst (inline o)
  set_buf src (inline moved_from)
  moved ← object_in src
  finish moved
  set_buf src bytes
vt_move heap src dst = do p ← pointer_in src; set_buf dst (pointer p)

unfoldable pub vt_destroy : Vtable → ℕ → M (Unit {0})
vt_destroy sbo this = do o ← object_in this; finish o; set_buf this bytes
vt_destroy heap this = do p ← pointer_in this; o ← load p; finish o; free p

-- `vtable_ = other.vtable_`, and the callable is moved here if there is one.
unfoldable pub take : (other this : ℕ) → M (Unit {0})
unfolding vt_move
take other this = do v ← get_vtable other; set_vtable this v; go v
  where
    go : Option Vtable → M (Unit {0})
    go none = pure tt
    go (some v) = vt_move v other this >> set_vtable other none

unfoldable pub destroy : ℕ → M (Unit {0})
unfolding vt_destroy
destroy this = get_vtable this >>= go
  where
    go : Option Vtable → M (Unit {0})
    go none = pure tt
    go (some v) = vt_destroy v this >> set_vtable this none

-- The move constructor, whose buffer starts as plain bytes.
unfoldable pub move_construct : (other this : ℕ) → M (Unit {0})
unfolding take
move_construct other this = set_buf this bytes >> take other this

unfoldable pub assign : (other this : ℕ) → M (Unit {0})
unfolding take destroy
assign other this = if this == other then pure tt else (destroy this >> take other this)

-- `operator()` through a null table is undefined.
unfoldable pub invoke : ℕ → M (Unit {0})
unfolding vt_invoke
invoke this = get_vtable this >>= go
  where
    go : Option Vtable → M (Unit {0})
    go none = λ s. none
    go (some v) = vt_invoke v this

-- `operator bool`
unfoldable pub has_callable : ℕ → Memory → Bool
has_callable this s = is_some (s.vtable this)
