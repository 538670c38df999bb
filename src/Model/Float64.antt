-- ===== src/Model/Float64.antt =====
-- Go's float64, which the components take as a parameter: the constants and operations that they
-- use. `round` is `int64(math.Round(x))` where x is not negative, `round_int` where it has any sign;
-- `to_int` is the conversion to an integer.
use apm_server.Prelude.{ℕ, ℤ, Bool}

pub record Float64 : Type 1 where
  pub F : Type 0
  pub of_int : ℤ → F
  pub add : F → F → F
  pub sub : F → F → F
  pub mul : F → F → F
  pub div : F → F → F
  pub pow : F → F → F
  pub eqb : F → F → Bool
  pub ltb : F → F → Bool
  pub leb : F → F → Bool
  pub round : F → ℕ
  pub round_int : F → ℤ
  pub to_int : F → ℤ
