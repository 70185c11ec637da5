-- ===== src/Prelude.antt =====
-- The names that the components share: those of the libraries, and the children's tests on numbers,
-- lists measured by native numbers, Go strings as lists of bytes, and Go maps as association lists.
mod Tests
mod Lists
pub mod GoText
pub mod GoMap
mod Signed
pub mod Int64
pub use Tests.*
pub use Lists.*
pub use Signed.{ℤ, pos, negsuc}
pub use GoText.{Text, codes, text_eq_iff, text_eq_refl}
unfoldable pub use GoText.{text_eq}
pub use Prim.Native.Nat.{ℕ, zero, suc, ◌+◌, ◌-◌, ◌*◌, ◌/◌, ◌%◌, ◌≤◌, ◌<◌, Ordering, compare}
pub use mathlib.Core.Path.{◌≡◌, refl, sym, ap, ◌∙◌}
pub use mathlib.Core.Logic.{◌≢◌, ◌↔◌, ◌⊎◌, inl, inr}
pub use mathlib.Core.Bool.{Bool, true, false, not, ◌&&◌, ◌||◌}
pub use mathlib.Core.Option.{Option, none, some}
pub use mathlib.Core.List.{List, [], ◌∷◌, ◌++◌, map}
pub use native.Mathlib.Omega.{arith}
