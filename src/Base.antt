-- ===== src/Base.antt =====
-- Names that every module of this development uses: the libraries', passed on, and those of the
-- children below. Nothing here models code of the program.
pub mod Tests
pub mod Lists
pub mod Text
pub mod Dicts
pub mod Options
pub use Tests.*
pub use Lists.*
pub use Options.*
unfoldable pub use Dicts.*
unfoldable pub use Text.{lower}
pub use Text.{text_or_empty, contains}
pub use text.Mathlib.Text.{◌==◌}
pub use text.Mathlib.TextEquality.{eq_iff}
pub use Prim.Native.Nat.{ℕ, zero, suc, ◌≤◌, ◌<◌}
pub use Prim.Native.String.{String}
pub use mathlib.Core.Path.{◌≡◌, refl, sym, ap, subst, ◌∙◌}
pub use mathlib.Core.Logic.{◌≢◌, ◌↔◌, ◌⊎◌, inl, inr}
pub use mathlib.Core.Bool.{Bool, true, false, not, ◌&&◌, ◌||◌}
pub use mathlib.Core.Option.{Option, none, some}
pub use mathlib.Core.List.{List, [], ◌∷◌, ◌++◌, map}
pub use native.Mathlib.Omega.{arith}
