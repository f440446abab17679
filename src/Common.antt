-- ===== src/Common.antt =====
-- What the parts of the library share: the names of the standard library, passed on, Boolean tests on
-- numbers, C arrays as lists, and runs that may end in a fault.
mod Tests
mod Lists
mod Faults
mod Memory
pub mod Heap
pub use Tests.*
pub use Lists.*
pub use Faults.*
pub use Memory.*
unfoldable pub use Memory.{copy}
pub use Prim.Native.Nat.{ℕ, zero, suc, ◌+◌, ◌-◌, ◌*◌, ◌/◌, ◌%◌, ◌^◌, ◌≤◌, ◌<◌, min}
pub use mathlib.Core.Path.{◌≡◌, refl, sym, ap, ◌∙◌}
pub use mathlib.Core.Logic.{◌≢◌, ◌⊎◌, inl, inr}
pub use mathlib.Core.Bool.{Bool, true, false, not, ◌&&◌, ◌||◌}
pub use mathlib.Core.Option.{Option, none, some}
pub use mathlib.Core.List.{List, [], ◌∷◌, ◌++◌, map}
pub use native.Mathlib.Omega.{arith}
