-- ===== src/Base.antt =====
-- Names, operators and lemmas that the other modules share: the libraries' names passed on, the
-- Boolean tests on native numbers, lists, signed integers and machine words.
mod Tests
mod Lists
pub mod Int
pub mod Range
pub mod Slots
mod Bits
unfoldable pub use Bits.{bit_ceil}
pub use Bits.{bit_ceil-reaches, bit_ceil-below, bit_ceil-power}
pub use Int.*
pub use Tests.*
pub use Lists.*
pub use Prim.Native.Nat.{ℕ, zero, suc, ◌+◌, ◌-◌, ◌*◌, ◌/◌, ◌%◌, ◌^◌, ◌≤◌, ◌<◌, min, max}
pub use Prim.Native.String.{String}
pub use mathlib.Core.Path.{◌≡◌, refl, sym, ap, ap₂, subst, ◌∙◌}
pub use mathlib.Core.Logic.{◌≢◌, ◌↔◌, ◌⊎◌, inl, inr}
pub use mathlib.Core.Bool.{Bool, true, false, not, ◌&&◌, ◌||◌}
pub use mathlib.Core.Option.{Option, none, some}
pub use mathlib.Core.List.{List, [], ◌∷◌, ◌++◌, map}
pub use native.Mathlib.Omega.{arith}
unfoldable pub use native.Mathlib.Decide.{dec_lt, dec_le, ℕ_discrete}
