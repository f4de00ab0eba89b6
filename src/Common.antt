-- ===== src/Common.antt =====
-- The names that all parts of the model share: those of the libraries, passed on, and those of the
-- children (Boolean tests, lists, keyed tables, transactions).
mod Tests
mod Lists
mod Strings
mod Tables
mod Calls
pub use Tests.*
pub use Lists.*
pub use Strings.*
pub use Tables.*
pub use Calls.*
pub use Prim.Native.Nat.{ℕ, zero, suc, ◌+◌, ◌-◌, ◌*◌, ◌/◌, ◌%◌, ◌^◌, ◌≤◌, ◌<◌}
pub use mathlib.Core.Path.{◌≡◌, refl, sym, ap, ◌∙◌, subst}
pub use mathlib.Core.Logic.{◌≢◌, ◌↔◌, ◌⊎◌, inl, inr}
pub use mathlib.Core.Bool.{Bool, true, false, not, ◌&&◌, ◌||◌}
pub use mathlib.Core.Option.{Option, none, some}
pub use mathlib.Core.List.{List, [], ◌∷◌, ◌++◌, map}
pub use native.Mathlib.Omega.{arith}
