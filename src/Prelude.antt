-- ===== src/Prelude.antt =====
-- The names that the other modules share: the library's, passed on, Boolean tests, lists,
-- dictionaries, text (a Python `str` as its code points) and signed integers.
mod Tests
mod Equality
mod Lists
pub mod Dict
pub mod Int
mod Texts
mod Results
pub use Tests.*
pub use Equality.*
pub use Lists.*
pub use Results.*
unfoldable pub use Texts.*
pub use Texts.Order.{sorted_iff}
pub use Prim.Native.Nat.{ℕ, zero, suc, ◌+◌, ◌-◌, ◌*◌, ◌/◌, ◌%◌, ◌^◌, ◌≤◌, ◌<◌, min}
pub use mathlib.Core.Path.{◌≡◌, refl, sym, ap, ◌∙◌}
pub use mathlib.Core.Logic.{◌≢◌, ◌↔◌, ◌⊎◌, inl, inr}
pub use mathlib.Core.Bool.{Bool, true, false, not, ◌&&◌, ◌||◌}
pub use mathlib.Core.Option.{Option, none, some}
pub use mathlib.Core.List.{List, [], ◌∷◌, ◌++◌, map}
pub use native.Mathlib.Omega.{arith}
