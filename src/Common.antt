-- ===== src/Common.antt =====
-- The names that every module shares: the libraries', passed on, Boolean tests on numbers and
-- texts, lists measured by native numbers, dictionaries.
mod Tests
mod Lists
mod Chain
pub mod Counting
mod Dictionary
pub mod Raising
pub use Tests.*
pub use Lists.*
pub use Chain.*
unfoldable pub use Dictionary.{lookup}
pub use Dictionary.{Dict}
pub use Prim.Native.Nat.{ℕ, zero, suc, ◌+◌, ◌-◌, ◌*◌, ◌/◌, ◌%◌, ◌≤◌, ◌<◌, min, max}
pub use Prim.Native.String.{String}
pub use mathlib.Core.Path.{◌≡◌, refl, sym, ap, subst, ◌∙◌}
pub use mathlib.Core.Logic.{◌≢◌, ◌↔◌, ◌⊎◌, inl, inr}
pub use mathlib.Core.Bool.{Bool, true, false, not, ◌&&◌, ◌||◌}
pub use mathlib.Core.Option.{Option, none, some}
pub use mathlib.Core.List.{List, [], ◌∷◌, ◌++◌, map, reverse, Perm}
pub use native.Mathlib.Omega.{arith}
pub use text.Mathlib.TextEquality.{eq_iff}
