-- ===== src/Base.antt =====
-- The names that the models share: those of the libraries, passed on, and those of the children.
mod Tests
mod Lists
mod Text
mod Assoc
mod Table
mod Keys
mod Decimal
pub use Tests.*
pub use Lists.*
pub use Text.*
pub use Table.*
pub use Keys.*
pub use Decimal.*
unfoldable pub use Decimal.{decimal_on}
unfoldable pub use Text.{split_on}
unfoldable pub use Table.{fetch_one, update_where, delete_where, insert_desc, order_desc}
unfoldable pub use native.Mathlib.Decide.{dec_lt}
unfoldable pub use Assoc.{Dict, lookup, insert, has_key}
pub use Assoc.{lookup-insert, lookup-nil}
pub use Prim.Native.Nat.{ℕ, zero, suc, ◌+◌, ◌-◌, ◌*◌, ◌/◌, ◌%◌, ◌≤◌, ◌<◌}
pub use Prim.Native.Char.{Char, code}
pub use Prim.Native.String.{String}
pub use mathlib.Core.Path.{◌≡◌, refl, sym, ap, subst, ◌∙◌}
pub use mathlib.Core.Logic.{◌≢◌, ◌↔◌, ◌⊎◌, inl, inr}
pub use mathlib.Core.Bool.{Bool, true, false, not, ◌&&◌, ◌||◌}
pub use mathlib.Core.Option.{Option, none, some}
pub use mathlib.Core.List.{List, [], ◌∷◌, ◌++◌, map}
pub use native.Mathlib.Omega.{arith}
pub use text.Mathlib.Text.{◌==◌}
pub use text.Mathlib.TextEquality.{eq_iff}
pub use text.Mathlib.TextPositions.{eq_refl}
