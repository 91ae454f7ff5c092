-- ===== src/Base.antt =====
-- Names that every other module shares: library names passed on, Boolean tests, lists indexed by
-- native numbers, outcomes of fallible code, ordered maps (`BTreeMap`) and bit operations.
mod Tests
mod Lists
pub mod Outcome
pub mod Map
pub mod Bits
pub mod Laps
pub mod Decimal
pub mod Endian
pub mod Text
pub mod Integer
pub use Tests.*
pub use Lists.*
pub use Prim.Native.Nat.{ℕ, zero, suc, ◌+◌, ◌-◌, ◌*◌, ◌/◌, ◌%◌, ◌^◌, ◌≤◌, ◌<◌, min, max}
pub use Prim.Native.Nat.{bit_and, bit_or, bit_xor}
pub use mathlib.Core.Path.{◌≡◌, refl, sym, ap, ◌∙◌}
pub use mathlib.Core.Logic.{◌≢◌, ◌↔◌, ◌⊎◌, inl, inr}
pub use mathlib.Core.Bool.{Bool, true, false, not, ◌&&◌, ◌||◌}
pub use mathlib.Core.Option.{Option, none, some}
pub use mathlib.Core.List.{List, [], ◌∷◌, ◌++◌, map}
pub use native.Mathlib.Omega.{arith}
