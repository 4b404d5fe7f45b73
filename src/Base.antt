-- ===== src/Base.antt =====
-- The names that every module shares: the libraries', passed on, and those of the children.
mod Tests
mod Equality
mod Results
mod Lists
mod Maps
mod Sets
mod Clock
mod Ascii
mod Words
pub mod Sort
pub use Tests.*
unfoldable pub use Equality.{ℕ_eq?, list_eq?, option_eq?}
pub use Equality.{Eq, ◌==◌, ◌!=◌, nat_eq, list_eq, option_eq, ==-refl, Bytes}
pub use Results.*
pub use Lists.*
pub use Sets.*
unfoldable pub use Sets.{insert_set, collect}
pub use Maps.*
unfoldable pub use Maps.{retain, count, get, insert, remove}
pub use Clock.*
pub use Ascii.*
pub use Words.*
unfoldable pub use Words.{header_length}
unfoldable pub use Ascii.{bytes_le}
pub use Prim.Native.Nat.{ℕ, zero, suc, ◌+◌, ◌-◌, ◌*◌, ◌/◌, ◌%◌, ◌^◌, ◌≤◌, ◌<◌, min, max}
pub use mathlib.Core.Path.{◌≡◌, refl, sym, ap, ◌∙◌}
pub use mathlib.Core.Logic.{◌≢◌, ◌↔◌, ◌⊎◌, inl, inr}
pub use mathlib.Core.Bool.{Bool, true, false, not, ◌&&◌, ◌||◌}
pub use mathlib.Core.Option.{Option, none, some}
pub use mathlib.Core.List.{List, [], ◌∷◌, ◌++◌, map}
pub use native.Mathlib.Omega.{arith}
unfoldable pub use native.Mathlib.Decide.{ℕ_discrete}
