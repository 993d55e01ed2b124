-- ===== src/Base.antt =====
-- What the other modules share: names of the libraries, lists over the native numbers, Boolean
-- tests, machine words and the outcome of a call.
mod Tests
mod Lists
mod Word
mod Bits
mod Call
mod Text
pub use Tests.*
pub use Lists.*
pub use Bits.*
pub use Call.*
unfoldable pub use Text.*
unfoldable pub use Word.*
pub use Prim.Native.Nat.{ℕ, zero, suc, ◌+◌, ◌-◌, ◌*◌, ◌/◌, ◌%◌, ◌^◌, ◌≤◌, ◌<◌}
pub use mathlib.Core.Path.{◌≡◌, subst, refl, sym, ap, ap₂, ◌∙◌}
pub use mathlib.Core.Logic.{◌≢◌, ◌⊎◌, inl, inr}
pub use mathlib.Core.Bool.{Bool, true, false, not, ◌&&◌, ◌||◌}
pub use mathlib.Core.Option.{Option, none, some}
pub use mathlib.Core.List.{List, [], ◌∷◌, ◌++◌, map, reverse}
pub use native.Mathlib.Omega.{arith}
