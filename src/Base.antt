-- ===== src/Base.antt =====
-- Names shared by every module: the libraries', passed on, and those of the children.
-- `Tests` has Boolean tests and the conditional, `Lists` lists over the native numbers, `Int` the
-- integers, `Bytes` Go's strings as lists of bytes, `Sort` their order and `sort.Strings`, `Dict`
-- Go's maps with string keys, `Act` code that may fail and acts on a state.
mod Tests
mod Lists
pub mod Int
pub mod Bytes
pub mod Sort
pub mod Dict
pub mod Act
pub use Tests.*
pub use Lists.*
pub use Prim.Native.Nat.{ℕ, zero, suc, ◌+◌, ◌-◌, ◌*◌, ◌/◌, ◌%◌, ◌^◌, ◌≤◌, ◌<◌, min}
pub use mathlib.Core.Path.{◌≡◌, refl, sym, ap, ◌∙◌, subst}
pub use mathlib.Core.Logic.{◌≢◌, ◌↔◌, ◌⊎◌, inl, inr}
pub use mathlib.Core.Bool.{Bool, true, false, not, ◌&&◌, ◌||◌}
pub use mathlib.Core.Option.{Option, none, some}
pub use mathlib.Core.List.{List, [], ◌∷◌, ◌++◌, map, append-nil, append_assoc}
pub use native.Mathlib.Omega.{arith}
