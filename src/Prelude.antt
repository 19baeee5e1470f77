-- ===== src/Prelude.antt =====
-- The names that the other modules share: the libraries', passed on, the Boolean tests on native
-- numbers, and the lists, texts, maps and results of the children.
mod Tests
mod Lists
mod Strings
mod StringLaws
mod Results
mod Maps
mod Texts
pub use Tests.*
pub use Lists.*
unfoldable pub use Strings.*
pub use StringLaws.*
pub use Results.*
unfoldable pub use Maps.*
unfoldable pub use Texts.*
pub use Prim.Native.Nat.{ℕ, zero, suc, ◌+◌, ◌-◌, ◌*◌, ◌/◌, ◌%◌, ◌^◌, ◌≤◌, ◌<◌, bit_and}
pub use Prim.Native.String.{String}
pub use mathlib.Core.Path.{◌≡◌, refl, sym, ap, ◌∙◌}
pub use mathlib.Core.Logic.{◌≢◌, ◌↔◌, ◌⊎◌, inl, inr}
pub use mathlib.Core.Bool.{Bool, true, false, ◌&&◌, ◌||◌, not}
pub use mathlib.Core.Option.{Option, none, some}
pub use mathlib.Core.List.{List, [], ◌∷◌, ◌++◌, map}
pub use native.Mathlib.Omega.{arith}
