-- ===== src/Shared.antt =====
-- The names that the other modules share: the libraries', passed on, and those of the children:
-- Boolean tests, texts, signed amounts, keyed tables and the outcome of a service call.
mod Tests
mod Text
mod Decimal
mod Int
mod Table
mod Outcome
mod Total
unfoldable pub use Tests.*
unfoldable pub use Text.*
unfoldable pub use Decimal.*
unfoldable pub use Int.*
unfoldable pub use Table.*
unfoldable pub use Outcome.*
unfoldable pub use Total.*
pub use Prim.Native.Nat.{ℕ, zero, suc, ◌+◌, ◌-◌, ◌*◌, ◌≤◌, ◌<◌}
pub use Prim.Native.String.{String}
pub use mathlib.Core.Path.{◌≡◌, refl, sym, ap, ◌∙◌, subst}
pub use mathlib.Core.Logic.{◌≢◌, ◌↔◌, ◌⊎◌, inl, inr, ite, dite, if_pos, if_neg}
pub use mathlib.Core.Bool.{Bool, true, false, not, ◌&&◌, ◌||◌}
pub use mathlib.Core.Option.{Option, none, some}
pub use mathlib.Core.List.{List, [], ◌∷◌, ◌++◌, map, reverse}
pub use native.Mathlib.Omega.{arith}
