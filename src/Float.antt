-- ===== src/Float.antt =====
-- The program's `float` and `double`, as far as it computes with them. The arithmetic of the
-- machine is not part of the repository: a type with its operations stands for it, and what a
-- theorem needs of it is a law among the theorem's hypotheses.
use okay_hermes_realtime.Base.{ℕ, Bool}
use okay_hermes_realtime.Base.Int.{ℤ}

-- `float`: the C operators, conversions and <math.h> functions that are applied to it.
pub record Float : Type 1 where
  pub Value : Type 0
  pub of_unsigned : ℕ → Value
  pub neg : Value → Value
  pub add : Value → Value → Value
  pub mul : Value → Value → Value
  pub div : Value → Value → Value
  -- `a < b`, false where one is not a number
  pub lt : Value → Value → Bool
  -- `a <= b`
  pub le : Value → Value → Bool
  pub is_finite : Value → Bool
  pub fmin : Value → Value → Value
  pub fmax : Value → Value → Value
  pub lrint : Value → ℤ
  pub fabs : Value → Value

-- `double`, for the clock and for printing.
pub record Double : Type 1 where
  pub Value : Type 0
  pub of_unsigned : ℕ → Value
  pub add : Value → Value → Value
  pub sub : Value → Value → Value
  pub div : Value → Value → Value
  pub lt : Value → Value → Bool
  pub le : Value → Value → Bool
  pub eq : Value → Value → Bool
  pub is_finite : Value → Bool
