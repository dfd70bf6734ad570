-- ===== src/Base.antt =====
-- The names that the other modules share: the libraries', passed on, and those of the children.
-- Python's `str`, `list`, `set` and `dict` as the program uses them, tests into `Bool`, and results.
mod Tests
mod Equality
mod Results
mod Lists
mod Members
mod Text
mod Glob
mod Payloads
mod Enums
mod Dicts
mod Sorting
mod Reading
pub use Tests.*
pub use Equality.*
pub use Results.*
pub use Lists.*
pub use Members.*
unfoldable pub use Text.*
unfoldable pub use Glob.*
pub use Payloads.{
  Json, Items, Fields, null, truth, number, text, array, object, nil, cons, end, field, member,
}
pub use Enums.*
pub use Dicts.*
unfoldable pub use Sorting.*
pub use Reading.*
pub use Prim.Native.Nat.{ℕ, zero, suc, ◌+◌, ◌-◌, ◌*◌, ◌≤◌, ◌<◌}
pub use Prim.Native.String.{String}
pub use mathlib.Core.Path.{◌≡◌, refl, sym, ap, ◌∙◌, subst}
pub use mathlib.Core.Logic.{◌≢◌, ◌↔◌, ◌⊎◌, inl, inr}
pub use mathlib.Core.Bool.{Bool, true, false, not, ◌&&◌, ◌||◌}
pub use mathlib.Core.Option.{Option, none, some}
pub use mathlib.Core.List.{List, [], ◌∷◌, ◌++◌, map, Memᴰ}
pub use native.Mathlib.Omega.{arith}
