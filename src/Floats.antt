-- ===== src/Floats.antt =====
-- What the program does with float64. The language has no floats, so the type and the operations that
-- the code applies to it are a parameter, with IEEE 754 facts as laws.
use cternal.Prelude.{◌^◌, ◌≤◌, ◌≡◌, Bool}
use cternal.Prelude.Int.{ℤ, pos_part, neg_part}

pub record Floats : Type 1 where
  pub Float : Type 0
  -- x > 0 and x <= 0, which are both false of a NaN
  pub positive : Float → Bool
  pub at_most_zero : Float → Bool
  pub one : Float
  -- time.Duration(x * float64(time.Second)) and Duration.Seconds
  pub duration_of : Float → ℤ
  pub seconds_of : ℤ → Float
  -- time.Duration(float64(d) / x)
  pub divided : ℤ → Float → ℤ
  -- a duration of at most 2 ^ 53 ns is a float64 exactly
  pub divided_one : (d : ℤ) → pos_part d ≤ 2 ^ 53 → neg_part d ≤ 2 ^ 53 → divided d one ≡ d
