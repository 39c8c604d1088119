-- ===== src/Common.antt =====
-- The names that the modules of every component share: the libraries', passed on, and those of
-- the children.
mod Tests
mod Lists
mod Fallible
mod Bytes
mod Words
mod Utf8
mod Text
mod Read
pub use Tests.*
pub use Lists.*
unfoldable pub use Fallible.*
unfoldable pub use Bytes.*
unfoldable pub use Words.*
unfoldable pub use Text.*
unfoldable pub use Read.*
unfoldable pub use Utf8.{is_utf8}
pub use Prim.Native.Nat.{
  ℕ, zero, suc, ◌+◌, ◌-◌, ◌*◌, ◌/◌, ◌%◌, ◌^◌, ◌≤◌, ◌<◌, bit_or, bit_and, min, max,
}
pub use Prim.Native.String.{String}
unfoldable pub use text.Mathlib.Text.{◌==◌ as str_eq}
pub use text.Mathlib.TextEquality.{eq_iff}
pub use mathlib.Core.Path.{◌≡◌, refl, sym, ap, ◌∙◌, subst}
pub use mathlib.Core.Logic.{◌≢◌, ◌↔◌, ◌⊎◌, inl, inr}
pub use mathlib.Core.Bool.{Bool, true, false, ◌&&◌, ◌||◌, not}
pub use mathlib.Core.Option.{Option, none, some}
pub use mathlib.Core.List.{List, [], ◌∷◌, ◌++◌, map, append_assoc, append-nil}
pub use native.Mathlib.Omega.{arith}
