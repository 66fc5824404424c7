-- ===== src/Logscast.antt =====
-- cmd/cternal/logscast.go: the log of a container as a cast file. The runtime, the clock, time.Parse, the
-- encoder and the writing of the file are parameters.
pub mod Pipeline
pub mod Playing
mod Tests
use cternal.Prelude.{ℕ, suc, ◌^◌, Bool, true, Option, none, some, List, [], ◌∷◌, Bytes, length}
use cternal.Prelude.Int.{ℤ, pos}
use cternal.Floats.{Floats}
use cternal.Std.Scan.{Input, scan_lines, scan_error}
use cternal.Runtime.{LogsOptions, Reply, gives, fails}
use cternal.Recorder.{Event, new}
use cternal.Recorder.Cast.{Header, Json, marshal}
use cternal.Saving.{Outcome, no_runtime, not_opened, not_read, store}
use cternal.Logs.{ParseTime, Reading, log_lines}

-- The command's flags, less those of the runtime and the path of the output.
pub record Flags (fl : Floats) : Type 0 where
  pub since : Bytes
  pub follow : Bool
  pub idle_limit : fl.Float

-- The Logs of a runtime.
abbrev pub Logs : Type 0
Logs = Bytes → LogsOptions → Reply Input

-- The scanner's buffer, of 1 MiB.
abbrev pub log_limit : ℕ
log_limit = 2 ^ 20

-- Each line with what the clock shows when it is read.
abbrev pub at_times : (ℕ → ℤ) → ℕ → List Bytes → List (Bytes × ℤ)
at_times clock i [] = []
at_times clock i (line ∷ lines) = (line, clock i) ∷ at_times clock (suc i) lines

module _ (fl : Floats) (json : Json fl) (parse : ParseTime) where
  abbrev pub header : fl.Float → Header fl
  header limit = record {
    version = pos 0;
    width = pos 220;
    height = pos 50;
    timestamp = pos 0;
    title = [];
    idle_time_limit = limit;
    env = none;
  }

  -- The events of the lines that are scanned of a log.
  unfoldable pub record_log : (ℕ → ℤ) → Bytes → List Event
  unfolding log_lines
  record_log clock content =
      let start : Reading = record { epoch = pos 0; recorder = new (clock 0) } in
      let scanned = scan_lines log_limit content in
      (log_lines parse start (at_times clock 1 scanned.lines)).recorder.events

  unfoldable pub save : (Bytes → Option Bytes) → fl.Float → List Event → Outcome
  unfolding marshal store
  save write limit events = store write (length events) (marshal fl json (header limit) events)

  unfoldable pub run_logscast :
      Reply Logs → (Bytes → Option Bytes) → (ℕ → ℤ) → Flags fl → Bytes → Outcome
  unfolding record_log save scan_error
  run_logscast runtime write clock flags id = elim runtime [
    | fails e ↦ no_runtime e
    | gives logs ↦
        let opts : LogsOptions = record {
          since = flags.since;
          follow = flags.follow;
          timestamps = true;
        } in
        elim (logs id opts) [
          | fails e ↦ not_opened e
          | gives input ↦ elim (scan_error log_limit input) [
            | some e ↦ not_read e
            | none ↦ save write flags.idle_limit (record_log clock input.content)
          ]
        ]
  ]
