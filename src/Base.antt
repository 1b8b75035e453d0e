-- ===== src/Base.antt =====
-- What the models of the firmware share: the libraries' names, Boolean tests, lists measured by
-- native numbers, and the negative errno values that the C functions return.
pub mod Tests
pub mod Lists
pub mod Status
pub mod Ring
pub mod Subseq
pub mod Bits
pub mod Int
pub use Tests.*
pub use Lists.*
pub use Status.*
pub use Ring.*
pub use Prim.Native.Nat.{ℕ, zero, suc, ◌+◌, ◌-◌, ◌*◌, ◌/◌, ◌%◌, ◌^◌, ◌≤◌, ◌<◌, min}
pub use mathlib.Core.Path.{◌≡◌, refl, sym, ap, ap₂, ◌∙◌}
pub use mathlib.Core.Logic.{◌≢◌, ◌↔◌, ◌⊎◌, inl, inr}
pub use mathlib.Core.Bool.{Bool, true, false, not, ◌&&◌, ◌||◌}
pub use mathlib.Core.Option.{Option, none, some}
pub use mathlib.Core.List.{List, [], ◌∷◌, ◌++◌, append-nil, append_assoc}
pub use native.Mathlib.Omega.{arith}
