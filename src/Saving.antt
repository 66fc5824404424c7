-- ===== src/Saving.antt =====
-- How the commands that make a cast file end: runLogscast of cmd/cternal/logscast.go and runRecord of
-- cmd/cternal/record.go. The writing of the file is a parameter.
use cternal.Prelude.{ℕ, Option, none, some, Bytes}

-- The file that is written with the number of events that is reported, or an error: there is no such
-- runtime, the container could not be opened, its log could not be read to the end, the events could not
-- be encoded, or the file could not be written.
pub data Outcome : Type 0 where
  saved : Bytes → ℕ → Outcome
  no_runtime : Bytes → Outcome
  not_opened : Bytes → Outcome
  not_read : Bytes → Outcome
  not_encoded : Outcome
  not_written : Bytes → Outcome

-- What is done with the text of a cast file of so many events; `none` is the encoder's error.
unfoldable pub store : (Bytes → Option Bytes) → ℕ → Option Bytes → Outcome
store write n none = not_encoded
store write n (some content) = elim (write content) [
  | some e ↦ not_written e
  | none ↦ saved content n
]
