-- ===== src/Recorder/Tests.antt =====
-- Examples of recordings, files and playbacks.
use cternal.Prelude.{
  ◌≡◌, refl, arith, false, none, some, ◌==◌, List, [], ◌∷◌, ◌++◌, codes, map, keep, bytes_eq,
}
use cternal.Prelude.Int.{pos, ◌+ℤ◌, sub64}
use cternal.Recorder.{event_output, is_output}
use cternal.Recorder.Reading.{Write, now, stamped}
use cternal.Recorder.Cast.{Header, marshal, idle_limit}
use cternal.Prelude.{◌*◌, length, All}
use cternal.Prelude.Int.{◌≤ℤ◌}
use cternal.Recorder.Cast.Duration.{marshal-bound}
use cternal.Recorder.Cast.Timeline.{Row, Ascending, Paced, file, marshal-Paced}
use cternal.Recorder.Player.{Player, Surroundings, interrupted, delay_of, play}
use cternal.Recorder.Player.Pace.{IsCalm}
use cternal.Samples.{floats, json, recording, calm}

abbrev limited : Header floats
limited = record {
  version = pos 0;
  width = pos 80;
  height = pos 24;
  timestamp = pos 0;
  title = [];
  idle_time_limit = pos 4;
  env = none;
}

marshal-limited :
    marshal floats json limited recording
    ≡ some (codes "header" ++ 10 ∷ [] ++ codes "a" ++ 10 ∷ [] ++ codes "b" ++ 10 ∷ [])
unfolding marshal is_output bytes_eq
marshal-limited = refl

recording-Ascending : Ascending (pos 0) (keep is_output recording)
unfolding is_output bytes_eq
recording-Ascending =
    (omega arith, (omega arith, omega arith), (omega arith, (omega arith, omega arith), tt))

marshal-Paced_example :
    (rows : List Row) × (marshal floats json limited recording ≡ file floats json limited rows)
    × (map (λ (r : Row). r.event) rows ≡ keep is_output recording)
    × Paced (idle_limit floats limited) (pos 0) (pos 0) rows
marshal-Paced_example =
    marshal-Paced floats json limited recording (omega arith) recording-Ascending

abbrev two_writes : List Write
two_writes = now event_output (codes "c") (pos 112) ∷ stamped event_output (codes "d") (pos 20) ∷ []

abbrev half_way : Surroundings
half_way = record { interrupts = λ i. i == 2; write_fails = λ _. false }

abbrev recorded_player : Player floats
recorded_player = record { events = recording; speed = floats.one }

play_interrupted :
    play floats recorded_player half_way
    ≡ record { written = (pos 3, codes "a") ∷ []; ending = interrupted }
unfolding play is_output bytes_eq delay_of sub64 ◌+ℤ◌
play_interrupted = refl

calm-IsCalm : IsCalm calm
calm-IsCalm = record { goes = λ _. refl; works = λ _. refl }

marshal-bound_example :
    (rows : List Row) × (marshal floats json limited recording ≡ file floats json limited rows)
    × (length rows ≡ length (keep is_output recording))
    × All (λ (r : Row). r.time ≤ℤ pos (4 * length (keep is_output recording))) rows
marshal-bound_example =
    marshal-bound floats json limited recording 4 refl (omega arith) recording-Ascending
