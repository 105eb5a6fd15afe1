-- ===== src/Prelude.antt =====
-- The names that the other modules share: the libraries', passed on, and those of the children.
mod Tests
mod Lists
mod Members
mod Text
mod Results
mod Orders
pub use Tests.*
pub use Lists.*
pub use Members.*
pub use Results.*
pub use Orders.{
  IsLess, IsSliceSort, IsSliceSort-IsSort, IsOrdered-imp, IsOrdered, IsSort, Permᴰ-Among,
  Permᴰ-length, cut_at-take, All-of, All-Permᴰ, All-take, take-IsOrdered, take-Among,
}
pub use Text.{
  Bytes, codes, beq_refl, beq_iff, beq_ne, beq_comm, value-decimal, decimal-injective, IsDigit,
  decimal-IsDigit, decimal-ne-nil,
}
unfoldable pub use Text.{beq, decimal}
pub use Prim.Native.Nat.{ℕ, zero, suc, ◌+◌, ◌-◌, ◌*◌, ◌/◌, ◌%◌, ◌^◌, ◌≤◌, ◌<◌, min, max}
pub use mathlib.Core.Path.{◌≡◌, refl, sym, ap, ◌∙◌}
pub use mathlib.Core.Logic.{◌≢◌, ◌↔◌, ◌⊎◌, inl, inr}
pub use mathlib.Core.Bool.{Bool, true, false, not, ◌&&◌, ◌||◌}
pub use mathlib.Core.Option.{Option, none, some}
pub use mathlib.Core.List.{List, [], ◌∷◌, ◌++◌, map, append-nil, append_assoc}
pub use native.Mathlib.Omega.{arith}
