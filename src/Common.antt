-- ===== src/Common.antt =====
-- The names that every part of the model shares: the libraries', passed on, and those of the
-- children (tests, machine words, memory, lists).
pub mod Tests
pub mod Word
pub mod Lists
pub mod Int
pub mod Memory
pub mod Mmio
pub mod State
pub mod Bits
pub use Tests.*
pub use Word.*
pub use Lists.*
pub use Memory.*
pub use Prim.Native.Nat.{
  ℕ, zero, suc, ◌+◌, ◌-◌, ◌*◌, ◌/◌, ◌%◌, ◌^◌, ◌≤◌, ◌<◌, bit_and, bit_or, bit_xor, min,
}
pub use mathlib.Core.Path.{◌≡◌, refl, sym, ap, ap₂, ◌∙◌, subst}
pub use mathlib.Core.Logic.{◌≢◌, ◌↔◌, ◌⊎◌, inl, inr}
pub use mathlib.Core.Bool.{Bool, true, false, not, ◌&&◌, ◌||◌}
pub use mathlib.Core.Option.{Option, none, some}
pub use mathlib.Core.List.{List, [], ◌∷◌, ◌++◌, map, foldl}
pub use native.Mathlib.Omega.{arith}
