-- ===== src/Base.antt =====
-- The names that the modules of every component share: the libraries', passed on, and those of the
-- children: Boolean tests, lists with native indices, bit operations on bytes, lists of tasks,
-- association lists, and texts.
mod Tests
mod Lists
mod Everywhere
pub mod Bits
pub mod Bytes
pub mod Tasks
pub mod Assoc
pub mod Text
pub mod Xor
pub mod Digits
pub mod MapOrder
pub use Tests.*
pub use Lists.*
pub use Everywhere.*
pub use Prim.Native.Nat.{ℕ, zero, suc, ◌+◌, ◌-◌, ◌*◌, ◌/◌, ◌%◌, ◌^◌, ◌≤◌, ◌<◌, min, max}
pub use Prim.Native.Nat.{bit_and, bit_or, bit_xor}
pub use mathlib.Core.Path.{◌≡◌, refl, sym, ap, subst, ◌∙◌}
pub use mathlib.Core.Logic.{◌≢◌, ◌↔◌, ◌⊎◌, inl, inr}
pub use mathlib.Core.Bool.{Bool, true, false, not, ◌&&◌, ◌||◌, and-false}
pub use mathlib.Core.Option.{Option, none, some}
pub use mathlib.Core.List.{List, [], ◌∷◌, ◌++◌, map, map-append, append-nil, append_assoc}
pub use native.Mathlib.Omega.{arith}
