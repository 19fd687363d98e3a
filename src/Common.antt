-- ===== src/Common.antt =====
-- Names that every module of the library shares: those of the libraries, passed on, and those of
-- the children (tests, lists, errors, machine words, bit operations).
mod Tests
mod Lists
mod Results
pub mod Word
pub mod Bits
pub mod Masks
pub mod TestBits
pub use Tests.*
pub use Lists.*
pub use Results.*
pub use Prim.Native.Nat.{ℕ, zero, suc, ◌+◌, ◌-◌, ◌*◌, ◌/◌, ◌%◌, ◌^◌, ◌≤◌, ◌<◌}
pub use Prim.Native.Nat.{bit_and, bit_or, bit_xor}
pub use mathlib.Core.Logic.{inl, inr, ◌⊎◌, ◌↔◌, ◌≢◌}
pub use mathlib.Core.Path.{refl, sym, ap, ◌≡◌, ◌∙◌}
pub use mathlib.Core.Bool.{Bool, true, false, not, ◌&&◌, ◌||◌}
pub use mathlib.Core.Option.{Option, none, some}
pub use mathlib.Core.List.{List, [], ◌∷◌, ◌++◌, map}
pub use native.Mathlib.Omega.{arith}
