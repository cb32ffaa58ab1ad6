-- ===== src/Prelude.antt =====
-- The names that the other modules share: the libraries', passed on, and those of the children.
mod Tests
mod Go
mod Lists
mod Text
mod TextOrder
mod Assoc
pub mod Int
pub use Go.*
pub use Tests.*
pub use Lists.*
unfoldable pub use Text.{bytes_eq, bytes_leb, bytes_ltb, has_prefix}
pub use Text.{Bytes, codes, IsBytes, bytes_eq_iff, bytes_eq_refl, bytes_eq_sym}
pub use TextOrder.*
unfoldable pub use Assoc.{lookup, insert, delete, delete_all}
pub use Assoc.{Map, lookup-insert, lookup-insert_self, lookup-delete}
pub use Prim.Native.Nat.{ℕ, zero, suc, ◌+◌, ◌-◌, ◌*◌, ◌/◌, ◌%◌, ◌^◌, ◌≤◌, ◌<◌}
pub use mathlib.Core.Path.{◌≡◌, refl, sym, ap, ◌∙◌}
pub use mathlib.Core.Logic.{◌≢◌, ◌↔◌, ◌⊎◌, inl, inr}
pub use mathlib.Core.Bool.{Bool, true, false, ◌&&◌, ◌||◌, not}
pub use mathlib.Core.Option.{Option, none, some}
pub use mathlib.Core.List.{List, [], ◌∷◌, ◌++◌, map}
pub use native.Mathlib.Omega.{arith}
unfoldable pub use native.Mathlib.Decide.{dec_lt, ℕ_discrete}
