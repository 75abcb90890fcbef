-- ===== src/Prelude.antt =====
-- The names that the modules share: the libraries', passed on, and those of the children.
-- `unsigned` and the other machine words are natural numbers, wrapped where the source wraps.
mod Tests
mod Lists
mod Words
mod Ranges
pub mod Bits
pub mod Digit
pub mod Int
pub mod Order
pub use Tests.*
pub use Lists.*
pub use Words.*
unfoldable pub use Ranges.*
pub use Prim.Native.Nat.{ℕ, zero, suc, ◌+◌, ◌-◌, ◌*◌, ◌/◌, ◌%◌, ◌^◌, ◌≤◌, ◌<◌, min, max}
pub use mathlib.Core.Path.{◌≡◌, refl, sym, ap, ◌∙◌, subst}
pub use mathlib.Core.Logic.{◌≢◌, ◌↔◌, ◌⊎◌, inl, inr}
pub use mathlib.Core.Bool.{Bool, true, false, not, ◌&&◌, ◌||◌}
pub use mathlib.Core.Option.{Option, none, some}
pub use mathlib.Core.List.{List, [], ◌∷◌, ◌++◌, append-nil, append_assoc}
pub use native.Mathlib.Omega.{arith}
unfoldable pub use native.Mathlib.Decide.{dec_lt, dec_le, ℕ_discrete}
