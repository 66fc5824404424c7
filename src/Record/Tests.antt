-- ===== src/Record/Tests.antt =====
-- An example of a recorded shell: a key is typed, the terminal is resized, a letter is shown.
use cternal.Prelude.{
  ℕ, ◌≡◌, refl, arith, false, none, some, Option, List, [], ◌∷◌, ◌++◌, map, Bytes, codes, bytes_eq,
  length,
}
use cternal.Prelude.Int.{pos, ◌-ℤ◌, saturate64, sub64, add64}
use cternal.Runtime.{ExecOptions, Reply, gives}
use cternal.Recorder.{is_output, since, new, add}
use cternal.Recorder.Cast.{marshal, advance, clamped_gap}
use cternal.Recorder.Cast.Timeline.{rows_from}
use cternal.Play.{Round, no_error, run_play}
use cternal.Saving.{saved}
use cternal.Record.{
  Happening, resizes, types, says, terminal_size, first_size, happen, happen_all, new_recording,
  header, run_record,
}
use cternal.Record.Kept.{run_play-run_record}
use cternal.Samples.{floats, calm}
use cternal.Samples.Codec.{
  is_at, is_known, one_row, one_decoder, one_row-Decodes, short_row, short_header, brackets,
}

abbrev happenings : List Happening
happenings =
    types (codes "x") (pos 101)
    ∷ resizes (some (100, 30)) (pos 102)
    ∷ says (codes "a") (pos 103)
    ∷ says [] (pos 104)
    ∷ []

shows_a : (happen_all (new_recording (pos 100)) happenings).shown ≡ codes "a" ∷ []
unfolding happen_all new_recording happen terminal_size
shows_a = refl

abbrev exec : Bytes → ExecOptions → Reply ℕ
exec id opts = gives 7

abbrev works : Bytes → Option Bytes
works content = none

abbrev rounds : ℕ → Round
rounds i = record { surroundings = calm; closed = false }

abbrev cast : Bytes
cast = codes "{}" ++ 10 ∷ (codes "[]" ++ 10 ∷ [])

run_play-run_record_example :
    let json = one_row 3 (codes "a") (codes "[]") in
    let b =
      run_record floats json
        (gives exec)
        works
        (codes "web")
        []
        (pos 0)
        none
        (pos 100)
        happenings in
    (b.outcome
      ≡ saved cast (length (happen_all (new_recording (pos 100)) happenings).recorder.events))
    × (run_play floats
          (one_decoder 3 (codes "a"))
          (gives (record { content = cast; read_error = none }))
          (pos 1)
          false
          rounds
          1
        ≡ some (map (λ s. s) b.recording.shown, no_error))
unfolding marshal is_output bytes_eq is_known is_at advance clamped_gap sub64 add64 since ◌-ℤ◌
    saturate64 rows_from happen_all new_recording happen terminal_size first_size new add
run_play-run_record_example =
    run_play-run_record floats (one_row 3 (codes "a") (codes "[]")) (one_decoder 3 (codes "a"))
      (λ s. s) (one_row-Decodes 3 (codes "a") (codes "[]") brackets) exec 7 works (codes "web") []
      (pos 0) none (pos 100) happenings cast (pos 1) rounds 0 refl refl refl
      (short_header 3 (codes "a") (codes "[]")
        (record (header floats (one_row 3 (codes "a") (codes "[]")) (first_size none) (pos 0)) {
          version = pos 2;
        }))
      (
        λ l e.
            short_row 3 (codes "a") (codes "[]") (omega arith) (pos 3) (codes "o") (codes "a") l e,
        tt,
      )
      (record { goes = λ _. refl; works = λ _. refl })
