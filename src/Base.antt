-- ===== src/Base.antt =====
-- The names that every module shares: the libraries' passed on, and those of the children.
mod Tests
mod Lists
mod Options
pub mod Bits
pub mod Int
pub use Tests.*
pub use Lists.*
unfoldable pub use Options.{load, store}
pub use Options.{
  ◌>>=◌, Yields, yields, Yields-bind, Yields-map, Yields-if, Yields-inv, some_eq, load-inside,
  bind_some, store-inside,
}
pub use Prim.Native.Nat.{ℕ, zero, suc, ◌+◌, ◌-◌, ◌*◌, ◌/◌, ◌%◌, ◌^◌, ◌≤◌, ◌<◌}
pub use mathlib.Core.Path.{◌≡◌, refl, sym, ap, ap₂, subst, ◌∙◌}
pub use mathlib.Core.Logic.{◌≢◌, ◌↔◌, ◌⊎◌, inl, inr}
pub use mathlib.Core.Bool.{Bool, true, false, not, ◌&&◌, ◌||◌}
pub use mathlib.Core.Option.{Option, none, some}
pub use mathlib.Core.List.{List, [], ◌∷◌, ◌++◌, map}
pub use native.Mathlib.Omega.{arith}
unfoldable pub use native.Mathlib.Decide.{dec_lt, ℕ_discrete}
