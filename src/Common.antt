-- ===== src/Common.antt =====
-- The names that the other modules share: the libraries', passed on, and those of the children:
-- tests on numbers, lists, integers, equality as an interface, dictionaries, and text.
mod Tests
mod Lists
mod Int
mod Equality
mod Assoc
mod Keys
mod Strings
mod Trimming
mod Decimal
mod Digits
pub use Tests.*
pub use Lists.*
pub use Int.*
unfoldable pub use Equality.*
unfoldable pub use Assoc.*
pub use Keys.*
unfoldable pub use Strings.*
pub use Trimming.*
unfoldable pub use Decimal.*
pub use Digits.*
pub use Prim.Native.Nat.{ℕ, zero, suc, ◌+◌, ◌-◌, ◌*◌, ◌/◌, ◌%◌, ◌^◌, ◌≤◌, ◌<◌, min, max}
pub use Prim.Native.String.{String}
pub use mathlib.Core.Path.{◌≡◌, refl, sym, ap, ◌∙◌, subst}
pub use mathlib.Core.Logic.{◌≢◌, ◌↔◌, ◌⊎◌, inl, inr}
pub use mathlib.Core.Bool.{Bool, true, false, not, ◌&&◌, ◌||◌}
pub use mathlib.Core.Option.{Option, none, some}
pub use mathlib.Core.List.{List, [], ◌∷◌, ◌++◌, map}
pub use native.Mathlib.Omega.{arith}
