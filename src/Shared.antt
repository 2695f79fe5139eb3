-- ===== src/Shared.antt =====
-- The names that the other modules share: the libraries', passed on, and those of the children.
-- It models nothing of the program by itself.
mod Tests
mod Lists
mod Int
pub mod Text
mod Dicts
mod Tables
mod Raising
pub mod Bits
pub mod Sorting
pub use Tests.*
pub use Lists.*
pub use Int.*
pub use Raising.*
unfoldable pub use Text.*
unfoldable pub use Dicts.*
unfoldable pub use Tables.*
pub use Prim.Native.Nat.{ℕ, zero, suc, ◌+◌, ◌-◌, ◌*◌, ◌/◌, ◌%◌, ◌^◌, ◌≤◌, ◌<◌, min}
pub use Prim.Native.String.{String, ◌++◌ as ◌<>◌}
pub use mathlib.Core.Path.{◌≡◌, refl, sym, ap, ◌∙◌}
pub use mathlib.Core.Logic.{◌≢◌, ◌↔◌, ◌⊎◌, inl, inr}
pub use mathlib.Core.Bool.{Bool, true, false, not, ◌&&◌, ◌||◌}
pub use mathlib.Core.Option.{Option, none, some}
pub use mathlib.Core.List.{List, [], ◌∷◌, ◌++◌, map}
pub use native.Mathlib.Omega.{arith}
pub use text.Mathlib.TextEquality.{eq_iff}
