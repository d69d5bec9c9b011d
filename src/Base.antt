-- ===== src/Base.antt =====
-- What the modules share: library names passed on, Boolean tests, lists measured by native numbers,
-- machine words, lists that grow and the postconditions of computations that may fault.
mod Tests
mod Lists
mod Words
mod Faults
mod Growth
unfoldable pub use Tests.*
pub use Lists.*
pub use Words.*
pub use Faults.*
pub use Growth.*
pub use Prim.Native.Nat.{ℕ, zero, suc, ◌+◌, ◌-◌, ◌*◌, ◌/◌, ◌%◌, ◌^◌, ◌≤◌, ◌<◌, min, bit_or}
pub use mathlib.Core.Path.{◌≡◌, refl, sym, ap, ◌∙◌, subst}
pub use mathlib.Core.Logic.{◌≢◌, ◌↔◌, ◌⊎◌, inl, inr}
pub use mathlib.Core.Bool.{Bool, true, false, not, ◌&&◌, ◌||◌}
pub use mathlib.Core.Option.{Option, none, some}
pub use mathlib.Core.List.{List, [], ◌∷◌, ◌++◌, map, append_assoc, append-nil}
pub use native.Mathlib.Omega.{arith}
