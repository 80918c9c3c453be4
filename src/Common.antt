-- ===== src/Common.antt =====
-- What the models of the kernel's parts share: the libraries' names, tests on numbers, lists
-- indexed by native numbers, byte arrays, and counted loops.
mod Tests
mod Lists
mod Loops
pub mod Bytes
pub mod Bitmap
pub mod Words
pub mod Copy
pub mod Runs
pub use Tests.*
unfoldable pub use Lists.*
pub use Loops.*
pub use Prim.Native.Nat.{ℕ, zero, suc, ◌+◌, ◌-◌, ◌*◌, ◌/◌, ◌%◌, ◌^◌, ◌≤◌, ◌<◌, min}
pub use Prim.Native.Nat.{bit_and, bit_or}
pub use mathlib.Core.Path.{◌≡◌, refl, sym, ap, ◌∙◌}
pub use mathlib.Core.Logic.{◌≢◌, ◌↔◌, ◌⊎◌, inl, inr}
pub use mathlib.Core.Bool.{Bool, true, false, not, ◌&&◌, ◌||◌}
pub use mathlib.Core.Option.{Option, none, some}
pub use mathlib.Core.List.{List, [], ◌∷◌, ◌++◌}
pub use native.Mathlib.Omega.{arith}
