-- ===== src/Ttl/Tests.antt =====
-- Examples of countdowns.
use cternal.Prelude.{arith, bytes_eq}
use cternal.Dict.{lookup}
use cternal.Ttl.Countdown.{IsSound}
use cternal.Samples.{manager}

pub manager-IsSound : IsSound manager
unfolding lookup bytes_eq
manager-IsSound = record { known = λ id t h. ground arith; tracked = λ t h. ground arith }
