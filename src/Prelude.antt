-- ===== src/Prelude.antt =====
-- Names shared by the whole development: the libraries' names passed on, Boolean tests and lists
-- over the native numbers, the outcome type of fallible Rust code, and Rust's own text routines.
pub mod Int
mod Tests
mod Lists
mod Outcomes
unfoldable pub use Tests.*
unfoldable pub use Lists.*
unfoldable pub use Outcomes.*
pub use Prim.Native.Nat.{ℕ, zero, suc, ◌+◌, ◌-◌, ◌*◌, ◌/◌, ◌%◌, ◌^◌, ◌≤◌, ◌<◌}
pub use mathlib.Core.Path.{◌≡◌, refl, sym, ap, ap₂, ◌∙◌, ◌≡⟨◌⟩◌, ◌∎, fun_ext}
pub use mathlib.Core.Logic.{◌≢◌, ◌↔◌, ◌⊎◌, inl, inr}
pub use mathlib.Core.Bool.{Bool, true, false, not, ◌&&◌, ◌||◌}
pub use mathlib.Core.Option.{Option, none, some}
pub use mathlib.Core.List.{List, [], ◌∷◌, ◌++◌, map, append_assoc, append-nil}
pub use native.Mathlib.Omega.{arith}
