-- ===== src/Common.antt =====
-- Shared names: those of the libraries, passed on, and those of the children. The numbers are the
-- native ones. A `std::string` is a list of bytes, and an exception is the error of a `Result`.
mod Tests
mod Lists
mod Int
mod Strings
mod Outcome
mod Decimal
pub use Tests.*
pub use Lists.*
pub use Int.*
pub use Strings.*
pub use Outcome.*
unfoldable pub use Decimal.*
pub use Prim.Native.Nat.{ℕ, zero, suc, ◌+◌, ◌-◌, ◌*◌, ◌/◌, ◌%◌, ◌^◌, ◌≤◌, ◌<◌}
pub use mathlib.Core.Path.{◌≡◌, refl, sym, ap, ◌∙◌, subst}
pub use mathlib.Core.Logic.{◌≢◌, ◌↔◌, ◌⊎◌, inl, inr}
pub use mathlib.Core.Bool.{Bool, true, false, ◌&&◌, ◌||◌, not}
pub use mathlib.Core.Option.{Option, none, some}
pub use mathlib.Core.List.{List, [], ◌∷◌, ◌++◌, append_assoc, append-nil}
pub use native.Mathlib.Omega.{arith}
