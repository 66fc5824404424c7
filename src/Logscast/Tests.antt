-- ===== src/Logscast/Tests.antt =====
-- Examples of logs. A stamp is a letter, at its code's nanosecond.
use cternal.Prelude.{
  ℕ, ◌+◌, ◌≡◌, refl, arith, false, none, some, Option, List, [], ◌∷◌, ◌++◌, map, Bytes, codes,
  bytes_eq, All,
}
use cternal.Prelude.Int.{ℤ, pos, ◌-ℤ◌, saturate64, sub64, add64}
use cternal.Std.Scan.{IsLine, unlines, drop_cr}
use cternal.Runtime.{gives}
use cternal.Newline.{normalize_lf}
use cternal.Recorder.{since, is_output}
use cternal.Recorder.Cast.{Header, idle_limit, marshal, advance, clamped_gap}
use cternal.Recorder.Cast.Timeline.{Row, Paced, file, rows_from}
use cternal.Logs.{ParseTime}
use cternal.Logs.Stamps.{Line, IsStamped, event_since}
use cternal.Play.{Round, no_error, run_play}
use cternal.Saving.{saved, store}
use cternal.Logscast.{Flags, Logs, log_limit, header, run_logscast}
use cternal.Logscast.Pipeline.{line_of, run_logscast_lem}
use cternal.Logscast.Playing.{shown, run_play-run_logscast}
use cternal.Samples.{floats, json, calm}
use cternal.Samples.Codec.{
  is_at, is_known, one_row, one_decoder, one_row-Decodes, short_row, short_header, brackets,
}

abbrev parse : ParseTime
parse [] = none
parse (c ∷ rest) = some (pos c)

abbrev hi : Line
hi = record { stamp = codes "A"; text = codes "hi"; ts = pos 65; now = pos 0 }

hi-IsStamped : All (IsStamped parse) (hi ∷ [])
hi-IsStamped = (
  record { one_word = (λ e. omega arith, tt); given = λ e. cc; parsed = refl; nonzero = refl },
  tt,
)

hi-IsLine : All (IsLine log_limit) (map line_of (hi ∷ []))
unfolding drop_cr
hi-IsLine = (
  record {
    no_break = (λ e. omega arith, (λ e. omega arith, (λ e. omega arith, (λ e. omega arith, tt))));
    no_return = refl;
    fits = omega arith;
  },
  tt,
)

abbrev logs : Logs
logs id opts = gives (record { content = unlines (map line_of (hi ∷ [])); read_error = none })

abbrev works : Bytes → Option Bytes
works content = none

abbrev clock : ℕ → ℤ
clock i = pos (500 + i)

abbrev flags : ℤ → Flags floats
flags limit = record { since = []; follow = false; idle_limit = limit }

run_logscast_lem_example :
    let hdr = header floats json parse (pos 4) in
    (rows : List Row) × (map (λ (r : Row). r.event) rows ≡ map (event_since (pos 65)) (hi ∷ []))
    × Paced (idle_limit floats hdr) (pos 0) (pos 0) rows
    × (run_logscast floats json parse (gives logs) works clock (flags (pos 4)) (codes "web")
        ≡ store works 1 (file floats json hdr rows))
unfolding since ◌-ℤ◌ saturate64
run_logscast_lem_example =
    run_logscast_lem floats json parse clock hi [] hi-IsStamped hi-IsLine logs works (flags (pos 4))
      (codes "web") refl (omega arith) (omega arith, (omega arith, omega arith), tt)

abbrev rounds : ℕ → Round
rounds i = record { surroundings = calm; closed = false }

-- The cast file, of a row for the line.
abbrev cast_of : Bytes → Bytes
cast_of row = codes "{}" ++ 10 ∷ (row ++ 10 ∷ [])

abbrev numbered : Bytes → Header floats
numbered row = record (header floats (one_row 0 (shown hi) row) parse (pos 0)) { version = pos 2 }

hi_encoded :
    (row : Bytes)
    → marshal floats
        (one_row 0 (shown hi) row)
        (header floats (one_row 0 (shown hi) row) parse (pos 0))
        (map (event_since (pos 65)) (hi ∷ []))
      ≡ some (cast_of row)
unfolding marshal is_output bytes_eq is_known is_at advance clamped_gap sub64 add64 since ◌-ℤ◌
    saturate64 normalize_lf
hi_encoded row = refl

run_play-run_logscast_example :
    let row = codes "[]" in
    (run_logscast floats
        (one_row 0 (shown hi) row)
        parse
        (gives logs)
        works
        clock
        (flags (pos 0))
        (codes "web")
      ≡ saved (cast_of row) 1)
    × (run_play floats
          (one_decoder 0 (shown hi))
          (gives (record { content = cast_of row; read_error = none }))
          (pos 1)
          false
          rounds
          1
        ≡ some (map (λ s. s) (map shown (hi ∷ [])), no_error))
unfolding is_output bytes_eq rows_from
run_play-run_logscast_example =
    run_play-run_logscast floats (one_row 0 (shown hi) (codes "[]")) (one_decoder 0 (shown hi))
      (λ s. s) (one_row-Decodes 0 (shown hi) (codes "[]") brackets) parse clock hi [] hi-IsStamped
      hi-IsLine logs works (flags (pos 0)) (codes "web") refl (cast_of (codes "[]")) refl
      (hi_encoded (codes "[]")) (short_header 0 (shown hi) (codes "[]") (numbered (codes "[]")))
      (pos 1) rounds 0 (λ l e. short_row 0 (shown hi) (codes "[]") (omega arith) _ _ _ l e, tt)
      (record { goes = λ _. refl; works = λ _. refl })
