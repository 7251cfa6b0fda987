-- ===== src/Prelude.antt =====
-- Names that every module of this library shares: the libraries', passed on, and those of the
-- children (tests on numbers, lists by native indices, predicates on lists, stable sorting, text).
mod Tests
mod Lists
mod Preds
pub mod Sort
pub mod Selection
pub mod Text
pub mod Int
pub mod Decimal
pub mod JsText
pub mod Number
pub use Tests.*
pub use Lists.*
pub use Preds.*
pub use Text.{Str, codes, str_eq, str_eq_iff, str_eq_refl}
pub use Prim.Native.Nat.{ℕ, zero, suc, ◌+◌, ◌-◌, ◌*◌, ◌/◌, ◌%◌, ◌^◌, ◌≤◌, ◌<◌}
pub use mathlib.Core.Path.{◌≡◌, refl, sym, ap, ◌∙◌, subst}
pub use mathlib.Core.Logic.{◌≢◌, ◌↔◌, ◌⊎◌, inl, inr}
pub use mathlib.Core.Bool.{Bool, true, false, not, ◌&&◌, ◌||◌}
pub use mathlib.Core.Option.{Option, none, some}
pub use mathlib.Core.List.{List, [], ◌∷◌, ◌++◌, map}
pub use native.Mathlib.Omega.{arith}
