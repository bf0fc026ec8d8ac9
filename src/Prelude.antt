-- ===== src/Prelude.antt =====
-- The names that the other modules share: the libraries' names passed on, Boolean tests and lists
-- over the native numbers, and results with an error.
pub mod Tests
pub mod Lists
pub mod Results
pub mod Bits
pub mod Loops
pub mod Writers
pub mod Parsers
pub mod Methods
pub use Tests.*
pub use Lists.*
pub use Prim.Native.Nat.{ℕ, zero, suc, ◌+◌, ◌-◌, ◌*◌, ◌/◌, ◌%◌, ◌^◌, ◌≤◌, ◌<◌, bit_and, bit_or}
pub use mathlib.Core.Path.{◌≡◌, refl, ap, ◌∙◌}
pub use mathlib.Core.Logic.{◌⊎◌, inl, inr}
pub use mathlib.Core.Bool.{Bool, true, false, not, ◌&&◌, ◌||◌}
pub use mathlib.Core.Option.{Option, none, some}
pub use mathlib.Core.List.{List, [], ◌∷◌, ◌++◌, map}
pub use native.Mathlib.Omega.{arith}
pub use Results.{Result, ok, err, ◌>>=◌, ◌>>◌, refuse_if}
unfoldable pub use native.Mathlib.Decide.{ℕ_discrete}
