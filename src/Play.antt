-- ===== src/Play.antt =====
-- cmd/cternal/play.go: the reading of a cast file and its playback on the terminal. The file, the
-- decoder of encoding/json and what interrupts a playback are parameters.
pub mod Readback
pub mod Rounds
pub mod Terminal
mod Tests
use cternal.Prelude.{
  ℕ, zero, suc, Bool, true, false, Option, none, some, List, [], ◌∷◌, ◌++◌, Bytes, codes, map,
  is_empty, if◌then◌else◌,
}
use cternal.Prelude.Int.{ℤ}
use cternal.Floats.{Floats}
use cternal.Std.{trim_space}
use cternal.Std.Scan.{scan_lines, Input, scan_error}
use cternal.Runtime.{Reply, gives, fails}
use cternal.Recorder.{Event}
use cternal.Recorder.Cast.{◌>>=◌}
use cternal.Recorder.Player.{Surroundings, finished, interrupted, failed, new_player, play}

-- json.Unmarshal into a slice of raw messages, a float64 and a string; `none` is an error.
pub record Decoder (fl : Floats) : Type 0 where
  pub raw_messages : Bytes → Option (List Bytes)
  pub number : Bytes → Option fl.Float
  pub text : Bytes → Option Bytes

abbrev pub three {ℓ} : {A : Type ℓ} → List A → Option (A × A × A)
three [] = none
three (a ∷ []) = none
three (a ∷ b ∷ []) = none
three (a ∷ b ∷ c ∷ []) = some (a, b, c)
three (a ∷ b ∷ c ∷ d ∷ xs) = none

-- The buffer of a scanner that is given none: bufio.MaxScanTokenSize.
abbrev pub scanner_limit : ℕ
scanner_limit = 65536

-- How one round of a playback goes, and whether `done` is closed when it has finished.
pub record Round : Type 0 where
  pub surroundings : Surroundings
  pub closed : Bool

pub data Exit : Type 0 where
  no_error : Exit
  cannot_load : Bytes → Exit
  cannot_write : Exit

module _ (fl : Floats) where
  -- The loop of runPlay, for at most so many rounds; `none` is a playback that goes on behind them.
  unfoldable pub play_rounds :
      List Event → fl.Float → Bool → (ℕ → Round) → ℕ → ℕ → List Bytes → Option (List Bytes × Exit)
  play_rounds events speed loop rounds zero i written = none
  play_rounds events speed loop rounds (suc n) i written =
      let b = play fl (new_player fl events speed) (rounds i).surroundings in
      let written' = written ++ map (λ (w : ℤ × Bytes). w.1) b.written in
      elim b.ending [
        | failed ↦ some (written', cannot_write)
        | interrupted ↦ some (written', no_error)
        | finished ↦ elim (rounds i).closed [
          | true ↦ some (written', no_error)
          | false ↦ elim loop [
            | false ↦ some (written', no_error)
            | true ↦ play_rounds events speed loop rounds n (suc i) written'
          ]
        ]
      ]

module _ (fl : Floats) (decoder : Decoder fl) where
  -- The event of a line; `none` is a line that is passed over.
  unfoldable pub parse_row : Bytes → Option Event
  parse_row line = do
    row ← decoder.raw_messages line
    parts ← three row
    ts ← decoder.number parts.0
    typ ← decoder.text parts.1
    content ← decoder.text parts.2
    some (record { time = fl.duration_of ts; typ = typ; content = content })

  -- The events of lines, of which the first that is not blank is passed over, as long as it has not
  -- been met.
  unfoldable pub load_lines : Bool → List Bytes → List Event
  unfolding parse_row
  load_lines first [] = []
  load_lines first (raw ∷ raws) =
      let line = trim_space raw in
      elim (is_empty line) [
        | true ↦ load_lines first raws
        | false ↦ elim first [
          | true ↦ load_lines false raws
          | false ↦ elim (parse_row line) [
            | none ↦ load_lines false raws
            | some ev ↦ ev ∷ load_lines false raws
          ]
        ]
      ]

  -- loadCast, of what opening the file gives. The events that it returns with an error are not used.
  unfoldable pub load_cast : Reply Input → Reply (List Event)
  unfolding load_lines
  load_cast (fails e) = fails e
  load_cast (gives file) = elim (scan_error scanner_limit file) [
    | some e ↦ fails e
    | none ↦ gives (load_lines true (scan_lines scanner_limit file.content).lines)
  ]

  -- What is written to the terminal and how runPlay returns.
  unfoldable pub run_play :
      Reply Input → fl.Float → Bool → (ℕ → Round) → ℕ → Option (List Bytes × Exit)
  unfolding load_cast play_rounds
  run_play opened speed loop rounds n = elim (load_cast opened) [
    | fails e ↦ some ([], cannot_load (codes "load cast: " ++ e))
    | gives events ↦ play_rounds fl events speed loop rounds n 0 []
  ]
