-- ===== src/Support.antt =====
-- Names and helpers that the components share: the libraries' names, passed on, Boolean tests and
-- signed integers, native lists, text keys, and the association lists that stand for Go maps.
mod Tests
mod Lists
mod Text
pub mod Int
pub mod Assoc
pub use Tests.*
pub use Lists.*
unfoldable pub use Text.{dec_str}
pub use Text.{str_eq, str_eq→eq, str_eq_refl, str_ne}
pub use Prim.Native.Nat.{ℕ, zero, suc, ◌+◌, ◌-◌, ◌*◌, ◌/◌, ◌%◌, ◌^◌, ◌≤◌, ◌<◌}
pub use Prim.Native.String.{String}
pub use mathlib.Core.Path.{◌≡◌, refl, sym, ap, ◌∙◌, subst}
pub use mathlib.Core.Logic.{◌≢◌, ◌↔◌, ◌⊎◌, inl, inr}
pub use mathlib.Core.Bool.{Bool, true, false, not, ◌&&◌, ◌||◌}
pub use mathlib.Core.Option.{Option, none, some}
pub use mathlib.Core.List.{List, [], ◌∷◌, ◌++◌, map}
pub use native.Mathlib.Omega.{arith}
