-- ===== src/Prelude.antt =====
-- The names that every part of the development shares: the libraries', passed on, and the helpers
-- of eight children (Boolean tests, lists, byte texts, table operations and their laws, keys,
-- maps).
mod Tests
mod Lists
mod Bytes
mod Table
mod Rows
mod Changes
mod Keys
mod Maps
pub use Tests.*
pub use Lists.*
unfoldable pub use Bytes.*
pub use Rows.*
pub use Changes.*
pub use Keys.*
unfoldable pub use Maps.*
unfoldable pub use Table.*
pub use Prim.Native.Nat.{ℕ, zero, suc, ◌+◌, ◌-◌, ◌*◌, ◌≤◌, ◌<◌, min}
pub use mathlib.Core.Path.{◌≡◌, refl, sym, ap, ap₂, ◌∙◌, subst}
pub use mathlib.Core.Logic.{◌≢◌, ◌↔◌, ◌⊎◌, inl, inr}
pub use mathlib.Core.Bool.{Bool, true, false, not, ◌&&◌, ◌||◌}
pub use mathlib.Core.Option.{Option, none, some}
pub use mathlib.Core.List.{List, [], ◌∷◌, ◌++◌, map}
pub use native.Mathlib.Omega.{arith}
