-- ===== src/Prelude.antt =====
-- What the other modules share: names of the libraries passed on, Boolean tests, lists, integers,
-- results and tables.
mod Tests
mod Lists
mod Assoc
mod Results
mod Int
mod Tables
mod Rows
pub use Tests.*
pub use Lists.*
unfoldable pub use Assoc.{lookup}
pub use Assoc.{Unique, mem_of_lookup, lookup_of_mem, lookup-map, Unique-map}
pub use Results.*
pub use Int.*
unfoldable pub use Tables.*
pub use Rows.*
pub use Prim.Native.Nat.{ℕ, zero, suc, ◌+◌, ◌-◌, ◌*◌, ◌/◌, ◌%◌, ◌≤◌, ◌<◌}
pub use Prim.Native.String.{String}
pub use mathlib.Core.Path.{◌≡◌, refl, sym, ap, ◌∙◌, subst}
pub use mathlib.Core.Logic.{◌≢◌, ◌↔◌, ◌⊎◌, inl, inr}
pub use mathlib.Core.Bool.{Bool, true, false, not, ◌&&◌, ◌||◌}
pub use mathlib.Core.Option.{Option, none, some}
pub use mathlib.Core.List.{List, [], ◌∷◌, ◌++◌, map}
pub use native.Mathlib.Omega.{arith}
