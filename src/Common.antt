-- ===== src/Common.antt =====
-- The names that the other modules share: those of the libraries and of the children below.
mod Tests
mod Keys
mod Lists
mod Maps
mod Strings
mod Outcome
mod Tables
mod Integers
mod Options
pub use Tests.*
unfoldable pub use Keys.*
pub use Lists.*
unfoldable pub use Maps.*
unfoldable pub use Strings.*
pub use Outcome.*
unfoldable pub use Tables.*
pub use Integers.*
pub use Options.*
pub use Prim.Native.Nat.{ℕ, zero, suc, ◌+◌, ◌-◌, ◌*◌, ◌/◌, ◌%◌, ◌^◌, ◌≤◌, ◌<◌, min, max}
pub use Prim.Native.String.{String}
pub use mathlib.Core.Path.{◌≡◌, refl, sym, ap, ap₂, subst, ◌∙◌}
pub use mathlib.Core.Logic.{◌≢◌, ◌↔◌, ◌⊎◌, inl, inr}
pub use mathlib.Core.Bool.{Bool, true, false, not, ◌&&◌, ◌||◌}
pub use mathlib.Core.Option.{Option, none, some}
pub use mathlib.Core.List.{List, [], ◌∷◌, ◌++◌, map, append_assoc, append-nil}
pub use native.Mathlib.Omega.{arith}
unfoldable pub use native.Mathlib.Decide.{dec_lt, dec_le, ℕ_discrete}
