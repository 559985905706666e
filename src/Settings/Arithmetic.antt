-- ===== src/Settings/Arithmetic.antt =====
-- `float` and `double`, of which the firmware uses these operations: the compiler's arithmetic and
-- `lround` of the C library.
use ykb_firmware.Base.{ℕ, Bool}
use ykb_firmware.Base.Int.{ℤ}

pub record Floats : Type 1 where
  pub Single : Type 0
  -- The literal or quotient n / d, rounded.
  pub single : ℕ → ℕ → Single
  pub single_add : Single → Single → Single
  pub single_sub : Single → Single → Single
  pub single_lt : Single → Single → Bool
  pub Double : Type 0
  pub double : ℤ → Double
  pub add : Double → Double → Double
  pub sub : Double → Double → Double
  pub mul : Double → Double → Double
  -- `(double)a / b` for integers.
  pub quotient : ℤ → ℤ → Double
  pub double_lt : Double → Double → Bool
  -- `lround`, and the conversion `(int32_t)`, which rounds towards zero.
  pub lround : Double → ℤ
  pub truncate : Double → ℤ
