-- ===== src/Base.antt =====
-- The names, tests and lemmas that the components share: the libraries', passed on, and those of
-- the children.
mod Tests
mod Lists
mod Counting
mod Dicts
pub mod Digits
mod Tables
pub mod Int
pub mod Json
pub mod Result
pub use Tests.*
pub use Lists.*
pub use Counting.*
unfoldable pub use Dicts.*
unfoldable pub use Digits.*
unfoldable pub use Tables.*
pub use Prim.Native.Nat.{ℕ, zero, suc, ◌+◌, ◌-◌, ◌*◌, ◌/◌, ◌%◌, ◌^◌, ◌≤◌, ◌<◌, min, max}
pub use Prim.Native.String.{String}
pub use mathlib.Core.Path.{◌≡◌, refl, sym, ap, ◌∙◌, subst}
pub use mathlib.Core.Logic.{◌≢◌, ◌↔◌, ◌⊎◌, inl, inr}
pub use mathlib.Core.Bool.{Bool, true, false, not, ◌&&◌, ◌||◌}
pub use mathlib.Core.Option.{Option, none, some}
pub use mathlib.Core.List.{List, [], ◌∷◌, ◌++◌, map, append_assoc, append-nil}
pub use native.Mathlib.Omega.{arith}
pub use text.Mathlib.TextEquality.{eq_iff}
pub use Prim.Native.String.{◌++◌ as str_append}
unfoldable pub use text.Mathlib.Text.{◌==◌ as str_eq}
