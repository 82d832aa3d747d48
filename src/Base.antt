-- ===== src/Base.antt =====
-- The names that the other modules share: the libraries' names, Boolean tests, arrays as lists,
-- machine words, signed integers and byte memory.
mod Tests
mod Lists
pub mod Int
pub mod Word
pub mod Memory
mod Chars
pub mod Bytes
pub mod Bitmap
pub use Tests.*
pub use Lists.*
pub use Chars.*
pub use Prim.Native.Nat.{ℕ, zero, suc, ◌+◌, ◌-◌, ◌*◌, ◌/◌, ◌%◌, ◌^◌, ◌≤◌, ◌<◌, min}
pub use mathlib.Core.Path.{◌≡◌, refl, sym, ap, ap₂, ◌∙◌}
pub use mathlib.Core.Logic.{◌≢◌, ◌↔◌, ◌⊎◌, inl, inr}
pub use mathlib.Core.Bool.{Bool, true, false, not, ◌&&◌, ◌||◌}
pub use mathlib.Core.Option.{Option, none, some}
pub use mathlib.Core.List.{List, [], ◌∷◌, ◌++◌, append-nil, append_assoc, map, reverse}
pub use native.Mathlib.Omega.{arith}
