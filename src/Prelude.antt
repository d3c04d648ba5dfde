-- ===== src/Prelude.antt =====
-- The names that the other modules share: the libraries' own, passed on, and the helpers below.
mod Tests
mod Lists
mod Texts
mod Maps
mod Outcomes
mod Decimal
pub use Tests.*
pub use Lists.*
unfoldable pub use Texts.{text_eq, contains}
pub use Texts.{Text, codes, text_eq_iff, text_eq_refl, text_eq_ne, Mention, contains_iff}
unfoldable pub use Maps.{lookup, delete, insert, keys}
pub use Maps.{
  lookup-delete, lookup-delete_other, lookup-insert, lookup-insert_other, is_some, contains-keys,
  Unique, insert-Unique, lookup-Any, Any-lookup,
}
pub use Outcomes.*
unfoldable pub use Decimal.{decimal}
pub use Decimal.{decimal_onto}
pub use Prim.Native.Nat.{ℕ, zero, suc, ◌+◌, ◌-◌, ◌*◌, ◌/◌, ◌%◌, ◌^◌, ◌≤◌, ◌<◌}
pub use Prim.Native.String.{String}
pub use mathlib.Core.Path.{◌≡◌, refl, sym, ap, ap₂, subst, ◌∙◌}
pub use mathlib.Core.Logic.{◌≢◌, ◌↔◌, ◌⊎◌, inl, inr}
pub use mathlib.Core.Bool.{Bool, true, false, not, ◌&&◌, ◌||◌}
pub use mathlib.Core.Option.{Option, none, some}
pub use mathlib.Core.List.{List, [], ◌∷◌, ◌++◌, map, append_assoc, append-nil}
pub use native.Mathlib.Omega.{arith}
