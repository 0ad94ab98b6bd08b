-- ===== src/Base.antt =====
-- Shared names: the libraries', passed on, and the helpers on tests, lists and JavaScript values
-- that the components share.
mod Tests
mod Lists
mod Text
mod Sets
mod Options
mod Runtime
pub mod Result
pub mod Sorting
pub use Tests.*
pub use Lists.*
pub use Sets.*
pub use Options.*
pub use Runtime.*
unfoldable pub use Text.{trim}
pub use Prim.Native.Nat.{ℕ, zero, suc, ◌+◌, ◌-◌, ◌*◌, ◌/◌, ◌^◌, ◌≤◌, ◌<◌, min, max}
pub use Prim.Native.String.{String}
pub use mathlib.Core.Path.{◌≡◌, refl, sym, ap, ap₂, subst, ◌∙◌}
pub use mathlib.Core.Logic.{◌≢◌, ◌↔◌, ◌⊎◌, inl, inr}
pub use mathlib.Core.Bool.{Bool, true, false, not, ◌&&◌, ◌||◌}
pub use mathlib.Core.Option.{Option, none, some, get_or}
pub use mathlib.Core.List.{List, [], ◌∷◌, ◌++◌, map, reverse}
pub use native.Mathlib.Omega.{arith}
pub use text.Mathlib.Text.{◌==◌ as str_eq}
pub use text.Mathlib.TextEquality.{eq_iff as str_eq_iff}
