-- ===== src/Base.antt =====
-- Names shared by every module: the libraries', passed on, and those of the children below
-- (Boolean tests, lists over the native numbers, signed integers, tables of rows).
mod Tests
mod Lists
mod Table
mod Order
mod Sorted
mod Group
pub mod Int
pub mod Result
pub use Tests.*
pub use Lists.*
unfoldable pub use Table.*
pub use Order.*
pub use Sorted.*
unfoldable pub use Group.*
pub use Prim.Native.Nat.{ℕ, zero, suc, ◌+◌, ◌-◌, ◌*◌, ◌/◌, ◌%◌, ◌^◌, ◌≤◌, ◌<◌}
pub use Prim.Native.String.{String}
pub use mathlib.Core.Path.{◌≡◌, refl, sym, ap, ◌∙◌, subst}
pub use mathlib.Core.Logic.{◌≢◌, ◌↔◌, ◌⊎◌, inl, inr}
pub use mathlib.Core.Bool.{Bool, true, false, not, ◌&&◌, ◌||◌}
pub use mathlib.Core.Option.{Option, none, some}
pub use mathlib.Core.List.{List, [], ◌∷◌, ◌++◌, map}
pub use native.Mathlib.Omega.{arith}
unfoldable pub use native.Mathlib.Decide.{ℕ_discrete}
pub use text.Mathlib.Text.{◌==◌ as str_eq}
pub use text.Mathlib.TextEquality.{eq_iff}
