-- ===== src/Record.antt =====
-- cmd/cternal/record.go: the recording of a shell in a container. The runtime, the sizes of the terminal,
-- what is typed and what the container says are parameters. A step is one round of one of the three
-- goroutines; what the container is sent and what the terminal is shown are listed. The raw mode of the
-- terminal is left out.
pub mod Kept
mod Tests
use cternal.Prelude.{
  ℕ, ◌%◌, ◌^◌, Option, none, some, List, [], ◌∷◌, ◌++◌, Bytes, is_empty, if◌then◌else◌, ◌==◌,
  length,
}
use cternal.Prelude.Int.{ℤ, pos}
use cternal.Floats.{Floats}
use cternal.Std.Decimal.{format_size}
use cternal.Runtime.{ExecOptions, Reply, gives, fails}
use cternal.Recorder.{Recorder, event_output, event_input, event_resize, new, add}
use cternal.Recorder.Cast.{Header, Json, marshal}
use cternal.Saving.{Outcome, no_runtime, not_opened, store}

-- term.GetSize, in columns and rows; `none` is an error.
abbrev pub TermSize : Type 0
TermSize = Option (ℕ × ℕ)

pub record Recording : Type 0 where
  pub recorder : Recorder
  pub typed : List Bytes
  pub resized : List (ℕ × ℕ)
  pub shown : List Bytes

-- The terminal's size has changed, bytes are read of the standard input, or of the container's stream.
pub data Happening : Type 0 where
  resizes : TermSize → ℤ → Happening
  types : Bytes → ℤ → Happening
  says : Bytes → ℤ → Happening

-- A conversion to uint16
abbrev pub uint16 : ℕ → ℕ
uint16 n = n % 2 ^ 16

-- A size is heeded if it has columns.
unfoldable pub terminal_size : TermSize → Option (ℕ × ℕ)
terminal_size none = none
terminal_size (some (w, h)) = if w == 0 then none else some (w, h)

unfoldable pub first_size : TermSize → ℕ × ℕ
unfolding terminal_size
first_size size = elim (terminal_size size) [ none ↦ (80, 24) | some s ↦ s ]

unfoldable pub happen : Recording → Happening → Recording
unfolding terminal_size
happen r (resizes size now) = elim (terminal_size size) [
  | none ↦ r
  | some (w, h) ↦ record r {
    recorder = add r.recorder event_resize (format_size w h) now;
    resized = r.resized ++ (uint16 w, uint16 h) ∷ [];
  }
]
happen r (types content now) = if is_empty content then r else record r {
  recorder = add r.recorder event_input content now;
  typed = r.typed ++ content ∷ [];
}
happen r (says content now) = if is_empty content then r else record r {
  recorder = add r.recorder event_output content now;
  shown = r.shown ++ content ∷ [];
}

unfoldable pub happen_all : Recording → List Happening → Recording
unfolding happen
happen_all r [] = r
happen_all r (h ∷ hs) = happen_all (happen r h) hs

unfoldable pub new_recording : ℤ → Recording
new_recording now = record { recorder = new now; typed = []; resized = []; shown = [] }

abbrev pub exec_options : List Bytes → ℕ × ℕ → ExecOptions
exec_options shell (cols, rows) = record {
  shell = shell;
  env = [];
  cols = uint16 cols;
  rows = uint16 rows;
}

-- How the command ends, and what has happened to the terminal and the container.
pub record Recorded : Type 0 where
  pub outcome : Outcome
  pub recording : Recording

module _ (fl : Floats) (json : Json fl) where
  abbrev pub header : ℕ × ℕ → fl.Float → Header fl
  header (cols, rows) limit = record {
    version = pos 0;
    width = pos cols;
    height = pos rows;
    timestamp = pos 0;
    title = [];
    idle_time_limit = limit;
    env = none;
  }

  -- The container is opened by `exec`, and what happens until the recording is read is given.
  unfoldable pub run_record :
      Reply (Bytes → ExecOptions → Reply ℕ)
      → (Bytes → Option Bytes)
      → Bytes
      → List Bytes
      → fl.Float
      → TermSize
      → ℤ
      → List Happening
      → Recorded
  unfolding first_size happen_all new_recording
  run_record runtime write id shell limit size now hs =
      let start = new_recording now in
      let dimensions = first_size size in
      elim runtime [
        | fails e ↦ record { outcome = no_runtime e; recording = start }
        | gives exec ↦ elim (exec id (exec_options shell dimensions)) [
          | fails e ↦ record { outcome = not_opened e; recording = start }
          | gives strm ↦
              let r = happen_all start hs in
              let events = r.recorder.events in
              record {
                outcome =
                    store write (length events) (marshal fl json (header dimensions limit) events);
                recording = r;
              }
        ]
      ]
