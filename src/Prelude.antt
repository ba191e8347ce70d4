-- ===== src/Prelude.antt =====
-- Names that every component shares: those of the libraries, passed on, and those of the
-- children of this module (tests on numbers, lists as C arrays, signed integers).
mod Chain
mod Tests
mod Lists
mod Sums
pub mod Int
pub use Tests.*
pub use Lists.*
unfoldable pub use Sums.{total}
pub use Sums.{
  total-append, total-set, get_or-le-total, set-set, get_or-set_self, total-le-length,
  total-replicate,
}
pub use Prim.Native.Nat.{ℕ, zero, suc, ◌+◌, ◌-◌, ◌*◌, ◌/◌, ◌%◌, ◌^◌, ◌≤◌, ◌<◌}
pub use mathlib.Core.Path.{◌≡◌, refl, sym, ap, ap₂, ◌∙◌}
pub use mathlib.Core.Logic.{◌≢◌, ◌↔◌, ◌⊎◌, inl, inr}
pub use mathlib.Core.Bool.{Bool, true, false, not, ◌&&◌, ◌||◌}
pub use mathlib.Core.Option.{Option, none, some}
pub use mathlib.Core.List.{List, [], ◌∷◌, ◌++◌, map}
pub use native.Mathlib.Omega.{arith}
pub use Chain.*
