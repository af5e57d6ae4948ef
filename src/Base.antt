-- ===== src/Base.antt =====
-- The names that the other modules share: the libraries', passed on, and those of the children.
mod Tests
mod Lists
mod Database
mod CodeUnits
mod Strings
mod Decimal
pub mod Int
pub mod Results
pub use Tests.*
pub use Lists.*
pub use Database.{
  Table, find, changed, matches, create, find-update_many, update_many-miss, find-create,
  find_first,
}
pub use Strings.*
pub use Decimal.{decimal_injective, NoColon, decimal-NoColon, cut}
pub use CodeUnits.{Text, is_space, to_upper, codes}
unfoldable pub use Decimal.{digits, decimal}
unfoldable pub use CodeUnits.{drop_while, trim, starts_with, text_eq}
unfoldable pub use Database.{update_many}
pub use Prim.Native.Nat.{ℕ, zero, suc, ◌+◌, ◌-◌, ◌*◌, ◌/◌, ◌%◌, ◌^◌, ◌≤◌, ◌<◌}
pub use Prim.Native.String.{String}
pub use mathlib.Core.Path.{◌≡◌, refl, sym, ap, ◌∙◌}
pub use mathlib.Core.Logic.{◌≢◌, ◌↔◌, ◌⊎◌, inl, inr, ite, dite, if_pos, if_neg}
pub use mathlib.Core.Bool.{Bool, true, false, not, ◌&&◌, ◌||◌}
pub use mathlib.Core.Option.{Option, none, some}
pub use mathlib.Core.List.{List, [], ◌∷◌, ◌++◌, map}
pub use native.Mathlib.Omega.{arith}
pub use text.Mathlib.Text.{◌==◌ as str_eq}
pub use text.Mathlib.TextEquality.{eq_iff as str_eq_iff}
unfoldable pub use native.Mathlib.Decide.{dec_lt, dec_le, ℕ_discrete}
