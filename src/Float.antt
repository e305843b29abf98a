-- ===== src/Float.antt =====
-- The floating-point types of Rust as an interface: `f32` and `f64` with the conversions, the
-- arithmetic and the comparisons that the program uses. Their definitions are not the program's.
pub mod Sample
use ocdscope.Prelude.{ℕ, Bool, true, false, ◌≡◌, ◌⊎◌}
use ocdscope.Prelude.Int.{ℤ}

pub record Floats : Type 1 where
  pub F32 : Type 0
  pub F64 : Type 0
  -- `f32::from_bits`, and `n as f32` of an integer
  pub bits_f32 : ℕ → F32
  pub int_f32 : ℤ → F32
  -- `x as f64` of an `f32`, and `n as f64` of an unsigned integer
  pub widen : F32 → F64
  pub nat_f64 : ℕ → F64
  -- `<` and `<=`, which are false if one side is NaN
  pub lt : F64 → F64 → Bool
  pub le : F64 → F64 → Bool
  pub add : F64 → F64 → F64
  pub sub : F64 → F64 → F64
  pub mul : F64 → F64 → F64
  pub div : F64 → F64 → F64
  -- the literal `1e-6`
  pub micro : F64

-- What IEEE 754 says of `<` and `<=`: on numbers they are a total order, and with a NaN on either
-- side both are false. `sub` of numbers that are finite is a number.
pub record IsIeee (fl : Floats) : Type 1 where
  pub IsNumber : fl.F64 → Type 0
  pub lt_or_ge : (a b : fl.F64) → IsNumber a → IsNumber b → (fl.lt a b ≡ true) ⊎ (fl.le b a ≡ true)
  pub not_le : (a b : fl.F64) → fl.lt a b ≡ true → fl.le b a ≡ false
  pub lt→le : (a b : fl.F64) → fl.lt a b ≡ true → fl.le a b ≡ true
  pub le_trans : (a b c : fl.F64) → fl.le a b ≡ true → fl.le b c ≡ true → fl.le a c ≡ true
