-- ===== src/Base.antt =====
-- Names that every part shares: the libraries' passed on, Boolean tests, integers, texts, times and
-- the results of code that may raise.
mod Tests
mod Lists
mod Int
mod Text
mod Errors
mod Time
mod Shown
pub mod Perm
pub mod TextLaws
pub mod Members
pub mod TextOrder
pub mod Rows
pub use Tests.*
pub use Lists.*
pub use Int.*
pub use Text.*
pub use Errors.*
pub use Time.*
pub use Shown.{show_ℤ, show_bool}
unfoldable pub use Text.{decimal, strip, rstrip, lstrip, casefold, upper, is_space}
unfoldable pub use Shown.{collapse}
unfoldable pub use Int.{◌+ℤ◌, ◌-ℤ◌}
pub use Prim.Native.Nat.{ℕ, zero, suc, ◌+◌, ◌-◌, ◌*◌, ◌^◌, ◌/◌, ◌%◌, ◌≤◌, ◌<◌, min}
pub use Prim.Native.String.{String}
pub use mathlib.Core.Path.{◌≡◌, refl, sym, ap, subst, ◌∙◌}
pub use mathlib.Core.Logic.{◌≢◌, ◌↔◌, ◌⊎◌, inl, inr}
pub use mathlib.Core.Bool.{Bool, true, false, not, ◌&&◌, ◌||◌}
pub use mathlib.Core.Option.{Option, none, some}
pub use mathlib.Core.List.{List, [], ◌∷◌, ◌++◌, map}
pub use native.Mathlib.Omega.{arith}
pub use text.Mathlib.Text.{◌==◌ as str_eq}
pub use text.Mathlib.TextEquality.{eq_iff}
pub use text.Mathlib.TextPositions.{eq_refl}
