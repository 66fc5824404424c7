-- ===== src/Play/Tests.antt =====
-- Examples of files and playbacks.
use cternal.Prelude.{
  ℕ, ◌+◌, ◌≤◌, ◌<◌, ◌≡◌, refl, inl, true, false, some, none, List, [], ◌∷◌, ◌++◌, codes, bytes_eq,
  ◌==◌,
}
use cternal.Prelude.Int.{sub64, add64, saturate64}
use cternal.Recorder.{Event, event_output, event_input, is_output}
use cternal.Recorder.Cast.{marshal, advance, clamped_gap}
use cternal.Recorder.Player.{new_player, play, delay_of}
use cternal.Recorder.Player.Pace.{texts}
use cternal.Play.{Round, play_rounds}
use cternal.Play.Rounds.{LastAfter, playback, repeated, said, exit_of, play_rounds_lem}
use cternal.Samples.{floats, event}
use cternal.Samples.Codec.{is_at, is_known, one_row, plain}

abbrev typed : List Event
typed = event 2 event_input (codes "x") ∷ event 3 event_output (codes "a") ∷ []

marshal-typed :
    marshal floats (one_row 3 (codes "a") (codes "[]")) plain typed
    ≡ some (codes "{}" ++ 10 ∷ codes "[]" ++ 10 ∷ [])
unfolding marshal is_output bytes_eq is_known is_at advance clamped_gap sub64 add64
marshal-typed = refl

-- The third round is interrupted.
abbrev thrice : ℕ → Round
thrice i = record {
  surroundings = record { interrupts = λ _. i == 2; write_fails = λ _. false };
  closed = false;
}

thrice-LastAfter : LastAfter floats typed floats.one thrice 0 2
unfolding play new_player is_output bytes_eq delay_of sub64 saturate64
thrice-LastAfter = ((refl, refl), ((refl, refl), inl (λ e. cc)))

play_rounds_lem_example :
    let b = playback floats typed floats.one thrice (0 + 2) in
    (5 ≤ 2 → play_rounds floats typed floats.one true thrice 5 0 [] ≡ none)
    × (2 < 5
        → play_rounds floats typed floats.one true thrice 5 0 []
          ≡ some ([] ++ (repeated 2 (texts typed) ++ said b), exit_of b.ending))
play_rounds_lem_example = play_rounds_lem floats typed floats.one thrice 2 5 0 [] thrice-LastAfter
