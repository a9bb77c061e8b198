-- ===== src/Base.antt =====
-- The names that the components share: the libraries', passed on, and those of three of its children; Bits and BigEndian are named by themselves.
mod Tests
mod Lists
pub mod Bits
mod Results
pub mod BigEndian
pub use Tests.*
pub use Lists.*
pub use Results.*
unfoldable pub use Tests.{bytes_eq}
pub use Prim.Native.Nat.{
  ℕ, zero, suc, ◌+◌, ◌-◌, ◌*◌, ◌/◌, ◌%◌, ◌^◌, ◌≤◌, ◌<◌, min, max, bit_and, bit_or,
}
pub use mathlib.Core.Path.{◌≡◌, refl, sym, ap, ◌∙◌, subst}
pub use mathlib.Core.Logic.{◌≢◌, ◌↔◌, ◌⊎◌, inl, inr}
pub use mathlib.Core.Bool.{Bool, true, false, not, ◌&&◌, ◌||◌}
pub use mathlib.Core.Option.{Option, none, some}
pub use mathlib.Core.List.{List, [], ◌∷◌, ◌++◌, map, Memᴰ}
pub use native.Mathlib.Omega.{arith}

-- Octets, or the code points of a text.
abbrev pub Bytes : Type 0
Bytes = List ℕ
