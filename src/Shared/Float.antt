-- ===== src/Shared/Float.antt =====
-- Floating point, which the code uses of the machine: types, operations and comparisons as the C++
-- standard names them. Nothing is assumed of how they round.
pub mod Fixed
use ultra_display_os.Prelude.{ℕ, Bool}

pub record Floats : Type 1 where
  pub Double : Type 0
  pub Single : Type 0
  -- The literal that is written as a quotient.
  pub double_lit : ℕ → ℕ → Double
  pub single_lit : ℕ → ℕ → Single
  -- Conversions from unsigned integers, between the two types, and to uint64_t and uint32_t.
  pub to_double : ℕ → Double
  pub to_single : ℕ → Single
  pub promote : Single → Double
  pub double_to_uint64 : Double → ℕ
  pub single_to_uint32 : Single → ℕ
  pub add : Double → Double → Double
  pub sub : Double → Double → Double
  pub mul : Double → Double → Double
  pub neg : Double → Double
  pub mul_single : Single → Single → Single
  pub div_single : Single → Single → Single
  pub lt_double : Double → Double → Bool
  pub lt_single : Single → Single → Bool
