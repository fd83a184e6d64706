-- ===== src/Base.antt =====
-- Shared names: the libraries' names passed on, Boolean tests, lists over the native numbers,
-- byte strings (Go's `string` and `[]byte`) and results.
mod Tests
mod Lists
pub mod Bytes
pub mod Result
pub mod Int
pub mod ReadFull
pub mod Utf8
pub mod Runes
pub mod Base64
pub mod Sort
pub use Tests.*
pub use Lists.*
pub use Prim.Native.Nat.{ℕ, zero, suc, ◌+◌, ◌-◌, ◌*◌, ◌/◌, ◌%◌, ◌^◌, ◌≤◌, ◌<◌}
pub use mathlib.Core.Path.{◌≡◌, refl, sym, ap, subst, ◌∙◌}
pub use mathlib.Core.Logic.{◌≢◌, ◌↔◌, ◌⊎◌, inl, inr}
pub use mathlib.Core.Bool.{Bool, true, false, not, ◌&&◌, ◌||◌}
pub use mathlib.Core.Option.{Option, none, some}
pub use mathlib.Core.List.{List, [], ◌∷◌, ◌++◌, map, append-nil, append_assoc}
pub use native.Mathlib.Omega.{arith}
