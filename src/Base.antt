-- ===== src/Base.antt =====
-- The names that every module shares: the libraries' names, Boolean tests, lists over the native
-- numbers, and texts as lists of code points.
mod Tests
mod Lists
mod Texts
pub mod TextLaws
pub mod Int
pub mod Membership
pub use Tests.*
unfoldable pub use Lists.*
unfoldable pub use Texts.*
pub use Prim.Native.Nat.{ℕ, zero, suc, ◌+◌, ◌-◌, ◌*◌, ◌/◌, ◌%◌, ◌^◌, ◌≤◌, ◌<◌}
pub use Prim.Native.String.{String}
pub use mathlib.Core.Path.{◌≡◌, refl, sym, ap, ◌∙◌}
pub use mathlib.Core.Logic.{◌≢◌, ◌↔◌, ◌⊎◌, inl, inr}
pub use mathlib.Core.Bool.{Bool, true, false, not, ◌&&◌, ◌||◌}
pub use mathlib.Core.Option.{Option, none, some}
pub use mathlib.Core.List.{List, [], ◌∷◌, append_assoc, append-nil}
unfoldable pub use mathlib.Core.List.{◌++◌, map, reverse}
pub use native.Mathlib.Omega.{arith}
