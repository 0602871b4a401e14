-- ===== src/Base.antt =====
-- The names that the other modules share: the libraries', passed on, and those of the children.
mod Tests
mod Strings
mod Int
mod Lists
mod Sort
mod Subset
mod Decimal
mod Errors
mod Noted
mod Dying
mod Atoi
mod Spaces
mod Search
pub mod Dict
pub use Tests.*
unfoldable pub use Strings.*
unfoldable pub use Int.*
pub use Lists.*
pub use Subset.*
unfoldable pub use Errors.*
pub use Dying.*
pub use Noted.*
unfoldable pub use Search.*
unfoldable pub use Spaces.*
unfoldable pub use Atoi.*
unfoldable pub use Sort.*
unfoldable pub use Decimal.*
pub use Prim.Native.Nat.{ℕ, zero, suc, ◌+◌, ◌-◌, ◌*◌, ◌/◌, ◌%◌, ◌^◌, ◌≤◌, ◌<◌}
pub use mathlib.Core.Path.{◌≡◌, refl, sym, ap, ◌∙◌, subst}
pub use mathlib.Core.Logic.{◌≢◌, ◌↔◌, ◌⊎◌, inl, inr}
pub use mathlib.Core.Bool.{Bool, true, false, ◌&&◌, ◌||◌, not}
pub use mathlib.Core.Option.{Option, none, some}
pub use mathlib.Core.List.{List, [], ◌∷◌, ◌++◌, map}
pub use native.Mathlib.Omega.{arith}
