-- ===== src/Base.antt =====
-- The names that the other modules share: the libraries', passed on, and those of its children.
pub mod Tests
pub mod Options
pub mod Tables
pub mod TableLaws
pub mod Quantifiers
pub mod Checks
pub use Tests.*
pub use Options.*
unfoldable pub use Tables.{update_where, count_where, find_where, exists_where, keep_where}
pub use Tables.{length, length-append, All, All-append}
pub use TableLaws.*
pub use Quantifiers.*
unfoldable pub use Checks.{each, contains}
pub use Checks.{
  Check, passed, refused, refuse_if, ◌&>◌, Each, refuse_if-passed, &>-passed, each-passed,
}
pub use Prim.Native.Nat.{ℕ, zero, suc, ◌+◌, ◌-◌, ◌*◌, ◌/◌, ◌%◌, ◌≤◌, ◌<◌}
pub use mathlib.Core.Path.{◌≡◌, refl, sym, ap, ◌∙◌}
pub use mathlib.Core.Logic.{◌≢◌, ◌↔◌, ◌⊎◌, inl, inr}
pub use mathlib.Core.Bool.{Bool, true, false, not, ◌&&◌, ◌||◌}
pub use mathlib.Core.Option.{Option, none, some}
pub use mathlib.Core.List.{List, [], ◌∷◌, ◌++◌, map}
pub use native.Mathlib.Omega.{arith}
