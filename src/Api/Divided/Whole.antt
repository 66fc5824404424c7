-- ===== src/Api/Divided/Whole.antt =====
-- The calls of a teardown, one behind another.
use cternal.Prelude.{ℕ, zero, suc}
use cternal.Prelude.Int.{ℤ}
use cternal.Floats.{Floats}
use cternal.Recorder.Cast.{Json}
use cternal.Api.{Server}
use cternal.Ttl
use cternal.Api.Divided.{Stage, advance}

module _ (fl : Floats) (json : Json fl) (p : ℕ) (now : ℤ) where
  pub advance_times : ℕ → Server × Stage → Server × Stage
  advance_times zero at = at
  advance_times (suc n) (s, stage) = advance_times n (advance fl json s p now stage)
