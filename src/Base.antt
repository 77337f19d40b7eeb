-- ===== src/Base.antt =====
-- The names that every other module shares: the libraries' own, passed on, with Boolean tests,
-- lists over the native numbers and the tables of a relational store.
mod Tests
mod Lists
mod Tables
mod Keys
mod Members
mod Once
pub use Tests.*
pub use Lists.*
unfoldable pub use Tables.{find, update, count, insert}
pub use Tables.*
pub use Keys.*
pub use Members.*
unfoldable pub use Once.{count_fires}
pub use Once.*
pub use Prim.Native.Nat.{ℕ, zero, suc, ◌+◌, ◌-◌, ◌*◌, ◌/◌, ◌%◌, ◌≤◌, ◌<◌, max}
pub use mathlib.Core.Path.{◌≡◌, refl, sym, ap, ◌∙◌, subst}
pub use mathlib.Core.Logic.{◌≢◌, ◌↔◌, ◌⊎◌, inl, inr}
pub use mathlib.Core.Bool.{Bool, true, false, not, ◌&&◌, ◌||◌}
pub use mathlib.Core.Option.{Option, none, some}
pub use mathlib.Core.List.{List, [], ◌∷◌, ◌++◌, map}
pub use native.Mathlib.Omega.{arith}
