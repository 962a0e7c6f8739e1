-- ===== src/Base.antt =====
-- What the other modules share: the libraries' names, passed on, and the helpers of the children:
-- tests and conditionals, arrays as functions, counting, and the bits of machine words.
mod Tests
mod Arrays
mod Count
mod Outcome
mod Absent
pub mod Words
pub mod Bits
pub use Tests.*
pub use Arrays.*
pub use Count.*
pub use Outcome.*
pub use Absent.*
pub use Prim.Native.Nat.{ℕ, zero, suc, ◌+◌, ◌-◌, ◌*◌, ◌/◌, ◌%◌, ◌^◌, ◌≤◌, ◌<◌, bit_and, bit_or}
pub use mathlib.Core.Path.{◌≡◌, refl, sym, ap, ap₂, subst, ◌∙◌, fun_ext}
pub use mathlib.Core.Logic.{◌≢◌, ◌↔◌, ◌⊎◌, inl, inr}
pub use mathlib.Core.Bool.{Bool, true, false, not, ◌&&◌, ◌||◌}
pub use mathlib.Core.Option.{Option, none, some}
pub use mathlib.Core.List.{List, [], ◌∷◌, ◌++◌}
pub use native.Mathlib.Omega.{arith}
