-- ===== src/Base.antt =====
-- Names that every module shares: the libraries' names passed on, Boolean tests on native
-- numbers, lists measured by native numbers, Go's comparable types, maps and sorting.
mod Tests
mod Lists
pub mod Equality
pub mod Int
pub mod Assoc
pub mod Sets
pub mod Subset
pub mod Sorting
pub mod Chain
pub use Tests.*
pub use Lists.*
pub use Equality.{Comparable, ◌==◌, nat_eq, string_eq, string_less}
pub use Prim.Native.Nat.{ℕ, zero, suc, ◌+◌, ◌-◌, ◌*◌, ◌/◌, ◌%◌, ◌^◌, ◌≤◌, ◌<◌}
pub use Prim.Native.String.{String}
pub use mathlib.Core.Path.{◌≡◌, refl, sym, ap, ◌∙◌, subst}
pub use mathlib.Core.Logic.{◌≢◌, ◌↔◌, ◌⊎◌, inl, inr}
pub use mathlib.Core.Bool.{Bool, true, false, not, ◌&&◌, ◌||◌}
pub use mathlib.Core.Option.{Option, none, some}
pub use mathlib.Core.List.{List, [], ◌∷◌, ◌++◌, map, append_assoc, append-nil}
pub use native.Mathlib.Omega.{arith}
