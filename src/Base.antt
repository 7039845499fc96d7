-- ===== src/Base.antt =====
-- The names that the other modules share: the libraries', passed on, and the helpers of the
-- children. Tests: Boolean tests. Lists: lists over the native numbers. Strings and Texts: JavaScript strings.
-- Outcomes is taken by its own name, since its constructors are also those of other results.
mod Tests
mod Lists
mod Strings
mod Texts
mod Distinct
mod Maps
mod MapPairs
mod Sorting
pub mod Outcomes
pub use Tests.*
pub use Lists.*
unfoldable pub use Strings.*
unfoldable pub use Texts.*
pub use Distinct.*
unfoldable pub use Maps.*
pub use MapPairs.*
unfoldable pub use Sorting.*
pub use Prim.Native.Nat.{ℕ, zero, suc, ◌+◌, ◌-◌, ◌*◌, ◌≤◌, ◌<◌}
pub use mathlib.Core.Path.{◌≡◌, refl, sym, ap, ◌∙◌}
pub use mathlib.Core.Logic.{◌≢◌, ◌↔◌, ◌⊎◌, inl, inr}
pub use mathlib.Core.Bool.{Bool, true, false, not, ◌&&◌, ◌||◌}
pub use mathlib.Core.Option.{Option, none, some}
pub use mathlib.Core.List.{List, [], ◌∷◌, ◌++◌, map}
pub use native.Mathlib.Omega.{arith}
