-- ===== src/Prelude.antt =====
-- The names that the models of the services share: the libraries', passed on, and the children's.
mod Tests
mod Lists
mod Texts
mod Errors
mod Db
pub mod Maps
pub mod All
pub mod Int
pub mod Pairs
pub use Tests.*
pub use Lists.*
unfoldable pub use Texts.{text_dec, with_default}
pub use Texts.{ne_of_test}
unfoldable pub use Errors.*
unfoldable pub use Db.*
pub use Prim.Native.Nat.{ℕ, zero, suc, ◌+◌, ◌-◌, ◌*◌, ◌/◌, ◌%◌, ◌^◌, ◌≤◌, ◌<◌, min}
pub use Prim.Native.String.{String}
pub use mathlib.Core.Path.{◌≡◌, refl, sym, ap, ◌∙◌}
pub use mathlib.Core.Logic.{◌≢◌, ◌↔◌, ◌⊎◌, inl, inr, ite, dite, if_pos, if_neg}
pub use mathlib.Core.Bool.{Bool, true, false, not, ◌&&◌, ◌||◌}
pub use mathlib.Core.Option.{Option, none, some}
pub use mathlib.Core.List.{List, [], ◌∷◌, ◌++◌, map}
pub use native.Mathlib.Omega.{arith}
unfoldable pub use native.Mathlib.Decide.{dec_lt, dec_le, ℕ_discrete}
