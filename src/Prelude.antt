-- ===== src/Prelude.antt =====
-- The names that the other modules share: the libraries', passed on, and those of the children.
mod Tests
mod Lists
mod Int
mod Text
mod Maps
mod Decimal
mod Split
pub use Tests.*
pub use Lists.*
pub use Int.*
pub use Text.*
pub use Maps.*
pub use Decimal.*
pub use Split.*
unfoldable pub use Split.{trim_space, to_upper, cut, split_on, join}
unfoldable pub use Decimal.{format_int, parse_int, parse_int64}
unfoldable pub use Text.{str_eq, strip, has_prefix, equal_fold, to_lower}
unfoldable pub use Maps.{lookup, insert, erase}
pub use Prim.Native.Nat.{ℕ, zero, suc, ◌+◌, ◌-◌, ◌*◌, ◌/◌, ◌%◌, ◌^◌, ◌≤◌, ◌<◌, min, max}
pub use Prim.Native.String.{String}
pub use mathlib.Core.Path.{◌≡◌, refl, sym, ap, subst, ◌∙◌}
pub use mathlib.Core.Logic.{◌≢◌, ◌↔◌, ◌⊎◌, inl, inr}
pub use mathlib.Core.Bool.{Bool, true, false, not, ◌&&◌, ◌||◌}
pub use mathlib.Core.Option.{Option, none, some}
pub use mathlib.Core.List.{List, [], ◌∷◌, ◌++◌, map}
pub use native.Mathlib.Omega.{arith}
