-- ===== src/Common.antt =====
-- The names that every module shares: the libraries' own, passed on, and those of the children,
-- which model what the program takes from Rust's standard library.
mod Tests
mod Results
mod Lists
mod Strings
mod Integers
pub mod Utf8
pub mod Percent
pub mod Escapes
pub mod Options
pub mod Splits
pub mod Joins
pub use Tests.*
pub use Results.*
pub use Lists.*
unfoldable pub use Strings.*
pub use Integers.*
pub use Prim.Native.Nat.{ℕ, zero, suc, ◌+◌, ◌-◌, ◌*◌, ◌/◌, ◌%◌, ◌^◌, ◌≤◌, ◌<◌}
pub use Prim.Native.String.{String}
pub use mathlib.Core.Path.{◌≡◌, refl, sym, ap, ◌∙◌}
pub use mathlib.Core.Logic.{◌≢◌, ◌↔◌, ◌⊎◌, inl, inr}
pub use mathlib.Core.Bool.{Bool, true, false, not, ◌&&◌, ◌||◌}
pub use mathlib.Core.Option.{Option, none, some}
pub use mathlib.Core.List.{List, [], ◌∷◌, ◌++◌, map}
pub use native.Mathlib.Omega.{arith}
