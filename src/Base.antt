-- ===== src/Base.antt =====
-- The names that the other modules share: library names passed on, Boolean tests, lists over the
-- native numbers, and decisions on texts. None of it models code of the repository.
mod Tests
pub mod Lists
pub mod Int
pub mod Optional
pub mod TextOrder
pub mod Texts
pub mod Sorting
pub mod Sorted
unfoldable pub use Tests.{String-discrete, Key-discrete, Triple-discrete}
pub use Tests.{
  ltb, leb, ◌==◌, if◌then◌else◌, Bool-cases, Option-cases, holds, ◌=s◌, ◌=o◌, =s-self, =o→eq,
  =o-self, text_ne,
}
pub use Lists.*
pub use Prim.Native.Nat.{ℕ, zero, suc, ◌+◌, ◌-◌, ◌*◌, ◌/◌, ◌%◌, ◌^◌, ◌≤◌, ◌<◌}
pub use Prim.Native.String.{String}
pub use mathlib.Core.Path.{◌≡◌, refl, sym, ap, ◌∙◌}
pub use mathlib.Core.Logic.{◌≢◌, ◌↔◌, ◌⊎◌, inl, inr}
pub use mathlib.Core.Bool.{Bool, true, false, not, ◌&&◌, ◌||◌}
pub use mathlib.Core.Option.{Option, none, some}
pub use mathlib.Core.List.{List, [], ◌∷◌, ◌++◌, map}
pub use native.Mathlib.Omega.{arith}
unfoldable pub use native.Mathlib.Decide.{ℕ_discrete}
