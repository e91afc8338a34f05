-- ===== src/Runtime/Thread.antt =====
-- A worker thread while one of its fibers runs, and the monad of code that may throw.
-- `fault` is undefined behaviour: a write through the null pointer that io_uring_get_sqe returned.
use fiberexec.Base.{ℕ, suc, ◌*◌, ℤ, Bool, true, false, List, Option, none, some, String}
use fiberexec.Runtime.Uring.{
  Ring, Kernel, Sqe, get_sqe as ring_get_sqe, edit, submit as ring_submit,
}

-- The exceptions that the code throws.
pub data Error : Type 0 where
  system_error : (code : ℤ) (what : String) → Error
  runtime_error : (what : String) → Error
  invalid_argument : (what : String) → Error

pub data Outcome (A : Type 0) : Type 0 where
  ok : A → Outcome A
  err : Error → Outcome A
  fault : Outcome A

-- `fiber_stop` is the token that fiber-local storage holds: none if no stoppable token was
-- installed, else whether a stop was requested. `notified` counts the writes to the notify eventfd.
-- `shut_down` are the descriptors that ::shutdown was called on, and `buf_groups` the groups for which a
-- ring of buffers is set up and was not freed.
pub record Thread : Type 0 where
  pub has_ring : Bool
  pub ring : Ring
  pub fiber_stop : Option Bool
  pub pool_stop : Bool
  pub cancel_queue : List ℕ
  pub notified : ℕ
  pub frames : ℕ
  pub shut_down : List ℤ
  pub buf_groups : List ℕ

abbrev pub M : Type 0 → Type 0
M A = Kernel → Thread → Outcome A × Thread

abbrev pub continue : {A B : Type 0} → Kernel → (A → M B) → Outcome A × Thread → Outcome B × Thread
continue k f (ok a, t) = f a k t
continue k f (err e, t) = (err e, t)
continue k f (fault, t) = (fault, t)

infixl 5 ◌>>=◌ ◌>>◌
abbrev pub ◌>>=◌ : {A B : Type 0} → M A → (A → M B) → M B
◌>>=◌ m f k t = continue k f (m k t)

abbrev pub ◌>>◌ : {B : Type 0} → M (Unit {0}) → M B → M B
m >> n = m >>= λ _. n

abbrev pub pure : {A : Type 0} → A → M A
pure a k t = (ok a, t)

abbrev pub throw : {A : Type 0} → Error → M A
throw e k t = (err e, t)

abbrev pub when : Bool → M (Unit {0}) → M (Unit {0})
when true m = m
when false m = pure tt

-- io_uring_get_sqe on the thread's ring.
abbrev pub get_sqe : M (Option ℕ)
get_sqe k t = let (p, r) = ring_get_sqe k t.ring in (ok p, record t { ring = r })

-- A write through an entry's pointer.
abbrev pub write_sqe : Option ℕ → (Sqe → Sqe) → M (Unit {0})
write_sqe none f k t = (fault, t)
write_sqe (some i) f k t = (ok tt, record t { ring = edit i f t.ring })

abbrev pub submit : M ℤ
submit k t = let (ret, r) = ring_submit k t.ring in (ok ret, record t { ring = r })

-- A handler on the fiber's stack: no two live at one address, and an address is a multiple of 8
-- above the sentinel tags.
abbrev pub new_handler : M ℕ
new_handler k t = (ok (8 * suc t.frames), record t { frames = suc t.frames })

-- `future.get()` on the promise of the handler at an address.
abbrev pub get_result : ℕ → M ℤ
get_result handler k t = (ok (k.result t.ring handler), t)
