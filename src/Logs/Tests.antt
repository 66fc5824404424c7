-- ===== src/Logs/Tests.antt =====
-- Examples of logs.
use cternal.Prelude.{refl, arith, none, some, [], ◌∷◌, codes, All}
use cternal.Prelude.Int.{pos}
use cternal.Logs.{ParseTime}
use cternal.Logs.Stamps.{Line, IsStamped}

-- A stamp here is a letter, at its code's nanosecond.
abbrev parse : ParseTime
parse [] = none
parse (c ∷ rest) = some (pos c)

abbrev first_line : Line
first_line = record { stamp = 65 ∷ []; text = codes "start"; ts = pos 65; now = pos 500 }

abbrev later_line : Line
later_line = record { stamp = 75 ∷ []; text = codes "on"; ts = pos 75; now = pos 510 }

both-IsStamped : All (IsStamped parse) (first_line ∷ later_line ∷ [])
both-IsStamped = (
  record { one_word = (λ e. omega arith, tt); given = λ e. cc; parsed = refl; nonzero = refl },
  (
    record { one_word = (λ e. omega arith, tt); given = λ e. cc; parsed = refl; nonzero = refl },
    tt,
  ),
)
