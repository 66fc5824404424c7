-- ===== src/Recorder/Player.antt =====
-- internal/recorder/player.go: the playback of a recording. Whether `done` is closed before a wait
-- ends, and whether a write fails, is the environment's choice at each event.
pub mod Pace
use cternal.Prelude.{
  ℕ, suc, Bool, true, false, Option, none, some, List, [], ◌∷◌, ◌++◌, Bytes, if◌then◌else◌, leb,
  length, drop,
}
use cternal.Prelude.Int.{ℤ, pos, negsuc, ltb_ℤ, ◌+ℤ◌, sub64}
use cternal.Floats.{Floats}
use cternal.Recorder.{Event, is_output}

pub record Player (fl : Floats) : Type 0 where
  pub events : List Event
  pub speed : fl.Float

pub record Surroundings : Type 0 where
  pub interrupts : ℕ → Bool
  pub write_fails : ℕ → Bool

pub data Ending : Type 0 where
  finished : Ending
  interrupted : Ending
  failed : Ending

-- What has been written, each text with the time that was waited before it, and how `Play` returned.
pub record Playback : Type 0 where
  pub written : List (ℤ × Bytes)
  pub ending : Ending

module _ (fl : Floats) where
  unfoldable pub new_player : List Event → fl.Float → Player fl
  new_player events speed = record {
    events = events;
    speed = if fl.at_most_zero speed then fl.one else speed;
  }

  -- `events[from:]`; `none` is the panic of a bound out of range.
  slice_from : List Event → ℤ → Option (List Event)
  slice_from events (pos n) = if leb n (length events) then some (drop n events) else none
  slice_from events (negsuc n) = none

  unfoldable pub new_player_from : List Event → fl.Float → ℤ → Option (Player fl)
  unfolding slice_from
  new_player_from events speed seek_index =
      let low = if ltb_ℤ seek_index (pos 0) then pos 0 else seek_index in
      let clamped = if ltb_ℤ low (pos (length events)) then low else pos (length events) in
      elim (slice_from events clamped) [ none ↦ none | some rest ↦ some (new_player rest speed) ]

  -- The wait before an output at `time` behind an event at `prev`.
  unfoldable pub delay_of : fl.Float → ℤ → ℤ → ℤ
  delay_of speed prev time = fl.divided (sub64 time prev) speed

  -- Only a positive delay is waited for, and only such a wait can be interrupted.
  abbrev pub stops : Surroundings → ℕ → ℤ → Bool
  stops env i delay = if ltb_ℤ (pos 0) delay then env.interrupts i else false

  abbrev pub after_wait : ℤ → ℤ → ℤ
  after_wait waited delay = if ltb_ℤ (pos 0) delay then waited +ℤ delay else waited

  play_loop : Surroundings → fl.Float → List Event → ℕ → ℤ → ℤ → List (ℤ × Bytes) → Playback
  play_loop env speed [] i prev waited written = record { written = written; ending = finished }
  play_loop env speed (ev ∷ evs) i prev waited written = elim (is_output ev) [
    | false ↦ play_loop env speed evs (suc i) ev.time waited written
    | true ↦
        let delay = delay_of speed prev ev.time in
        let waited' = after_wait waited delay in
        elim (stops env i delay) [
          | true ↦ record { written = written; ending = interrupted }
          | false ↦ elim (env.write_fails i) [
            | true ↦ record { written = written; ending = failed }
            | false ↦
                play_loop env speed evs (suc i) ev.time waited'
                  (written ++ (waited', ev.content) ∷ [])
          ]
        ]
  ]

  unfoldable pub play : Player fl → Surroundings → Playback
  unfolding play_loop
  play p env = play_loop env p.speed p.events 0 (pos 0) (pos 0) []
