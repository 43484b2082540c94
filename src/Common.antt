-- ===== src/Common.antt =====
-- The names that the other modules share: the libraries', passed on, and those of the children
-- about tests, lists, texts, Go maps and multiplicities.
mod Tests
mod Lists
mod Perms
mod Bytes
mod Maps
mod Count
mod Members
mod Int
mod Decimal
pub use Tests.*
pub use Lists.*
pub use Perms.*
unfoldable pub use Bytes.*
unfoldable pub use Maps.*
pub use Count.*
pub use Members.*
pub use Int.*
unfoldable pub use Decimal.*
pub use Prim.Native.Nat.{ℕ, zero, suc, ◌+◌, ◌-◌, ◌*◌, ◌/◌, ◌%◌, ◌^◌, ◌≤◌, ◌<◌, min}
pub use mathlib.Core.Path.{◌≡◌, refl, sym, ap, ◌∙◌, subst}
pub use mathlib.Core.Logic.{◌≢◌, ◌↔◌, ◌⊎◌, inl, inr}
pub use mathlib.Core.Bool.{Bool, true, false, ◌&&◌, ◌||◌, not}
pub use mathlib.Core.Option.{Option, none, some}
pub use mathlib.Core.List.{List, [], ◌∷◌, ◌++◌, map, Memᴰ}
pub use native.Mathlib.Omega.{arith}
