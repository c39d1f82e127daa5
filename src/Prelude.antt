-- ===== src/Prelude.antt =====
-- The names that the modules share: those of the libraries, passed on, and those of the
-- children: Boolean tests, lists measured by native numbers, byte strings, hexadecimal digits and Go's maps.
mod Tests
mod Lists
mod Text
mod Results
mod Int
pub mod Strings
pub mod GoMap
pub mod Hex
pub mod Counting
pub use Tests.*
pub use Lists.*
pub use Results.*
pub use Int.*
unfoldable pub use Text.{bytes_dec}
pub use Text.{Bytes, codes}
pub use Prim.Native.Nat.{ℕ, zero, suc, ◌+◌, ◌-◌, ◌*◌, ◌/◌, ◌%◌, ◌^◌, ◌≤◌, ◌<◌}
pub use mathlib.Core.Path.{◌≡◌, refl, sym, ap, subst, ◌∙◌}
pub use mathlib.Core.Logic.{◌≢◌, ◌↔◌, ◌⊎◌, inl, inr, ite, if_pos, if_neg}
pub use mathlib.Core.Bool.{Bool, true, false, ◌&&◌, ◌||◌, not, cond}
pub use mathlib.Core.Option.{Option, none, some, some-injective}
pub use mathlib.Core.List.{List, [], ◌∷◌, ◌++◌, map}
pub use native.Mathlib.Omega.{arith}
unfoldable pub use native.Mathlib.Decide.{dec_lt, dec_le, ℕ_discrete}
