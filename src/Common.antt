-- ===== src/Common.antt =====
-- Names that every module shares: library names passed on, tests on numbers, Python's integers,
-- dictionaries, exceptions and decimals.
mod Tests
pub mod Int
pub mod Lists
pub mod Eq
pub mod Dict
pub mod Result
pub mod Decimal
pub mod Float
pub mod Time
pub mod Text
pub mod Numbers
pub use Tests.*
pub use Prim.Native.Nat.{ℕ, zero, suc, ◌+◌, ◌-◌, ◌*◌, ◌/◌, ◌%◌, ◌^◌, ◌≤◌, ◌<◌}
pub use Prim.Native.String.{String}
pub use mathlib.Core.Path.{◌≡◌, refl, sym, ap, subst, ◌∙◌}
pub use mathlib.Core.Logic.{◌≢◌, ◌↔◌, ◌⊎◌, inl, inr}
pub use mathlib.Core.Bool.{Bool, true, false, not, ◌&&◌, ◌||◌}
pub use mathlib.Core.Option.{Option, none, some}
pub use mathlib.Core.List.{List, [], ◌∷◌, ◌++◌, map}
pub use native.Mathlib.Omega.{arith}
