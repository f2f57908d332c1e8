-- ===== src/Base.antt =====
-- The names that the other modules share: the libraries', passed on, and those of the children.
mod Tests
mod Lists
mod Equality
pub mod Chars
pub mod Int
pub mod Decimal
pub mod Dict
mod Errors
pub use Tests.*
pub use Lists.*
unfoldable pub use Equality.*
unfoldable pub use Chars.*
unfoldable pub use Int.*
unfoldable pub use Decimal.{show_nat, show_int, parse_int, IsDigit}
pub use Decimal.{
  parse_int-show_nat, show_nat_inj, show_nat-IsDigit, parse_int_digits, parse_int_unit_line,
}
unfoldable pub use Errors.*
unfoldable pub use Dict.{lookup, insert, keys, values}
pub use Dict.Laws.{lookup-insert}
pub use Prim.Native.Nat.{ℕ, zero, suc, ◌+◌, ◌-◌, ◌*◌, ◌/◌, ◌%◌, ◌^◌, ◌≤◌, ◌<◌}
pub use Prim.Native.String.{String}
pub use mathlib.Core.Path.{◌≡◌, refl, sym, ap, ◌∙◌, subst}
pub use mathlib.Core.Logic.{◌≢◌, ◌↔◌, ◌⊎◌, inl, inr}
pub use mathlib.Core.Bool.{Bool, true, false, not, ◌&&◌, ◌||◌}
pub use mathlib.Core.Option.{Option, none, some}
pub use mathlib.Core.List.{List, [], ◌∷◌, ◌++◌, map, reverse, append-nil, append_assoc}
pub use native.Mathlib.Omega.{arith}
