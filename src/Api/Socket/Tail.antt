-- ===== src/Api/Socket/Tail.antt =====
-- internal/api/ws.go, runLogsWS: the goroutines of a connection to a logs session, how they begin
-- and the steps that they may take in any order. `reader` is the handler's own goroutine, `source`
-- the one that scans the log, `writer` the one that writes to the WebSocket.
pub mod Events
pub mod Moves
pub mod Told
pub mod Ending
mod Tests
use cternal.Prelude.{
  ℕ, Bool, true, false, Option, none, some, List, [], ◌∷◌, ◌++◌, Bytes, codes, ltb, if◌then◌else◌,
  length,
}
use cternal.Prelude.Int.{ℤ, pos}
use cternal.Runtime.{Reply, gives, fails}
use cternal.Recorder.{Recorder, EventType, event_input, event_resize, add}
use cternal.Logs.{ParseTime, Reading, log_line}
use cternal.Api.Socket.{Message, output, error}
use cternal.Api.Socket.Attach.{
  Reader, reading, waiting, returned, Writer, writing, done, write_capacity,
}

-- At a scan of the next line; holding a line's message; at its end.
pub data Scanner : Type 0 where
  scanning : Scanner
  telling : Bytes → Scanner
  over : Scanner

-- `log` is the session's recording with the time of the first line, and `taken` the texts of the lines that
-- were scanned. The source closes the write channel when it is over.
pub record Tail : Type 0 where
  pub reader : Reader
  pub source : Scanner
  pub write_ch : List Message
  pub writer : Writer
  pub log : Reading
  pub taken : List Bytes
  pub sent : List Message

unfoldable pub new_tail : Recorder → Tail
new_tail recorder = record {
  reader = reading;
  source = scanning;
  write_ch = [];
  writer = writing;
  log = record { epoch = pos 0; recorder = recorder };
  taken = [];
  sent = [];
}

-- runLogsWS, of the runtime's answer: an error is told, and the handler returns.
unfoldable pub open_tail : Recorder → Reply ℕ → List Message × Option Tail
unfolding new_tail
open_tail recorder (fails e) = (error (codes "failed to open logs: " ++ e) ∷ [], none)
open_tail recorder (gives logs) = ([], some (new_tail recorder))

-- What may happen: a message of the client is read, which may be an input or a resize, or a read fails, or the handler returns; a line is
-- scanned at some time, or there is none; the source sends its message, or sees that the writer is
-- done; the writer writes, or fails to, or sees the end of its channel.
pub data TailMove : Type 0 where
  hears : TailMove
  hears_input : Bytes → ℤ → TailMove
  hears_resize : Bytes → ℤ → TailMove
  hears_no_more : TailMove
  leaves : TailMove
  scans : Bytes → ℤ → TailMove
  scan_ends : TailMove
  tells : TailMove
  gives_up : TailMove
  writes : TailMove
  write_fails : TailMove
  ends : TailMove

-- What dispatchMessage records of a client's message, in this mode too.
unfoldable pub note_event : Tail → EventType → Bytes → ℤ → Tail
unfolding add
note_event t typ content now = record t {
  log = record t.log { recorder = add t.log.recorder typ content now };
}

tail_reader : Tail → TailMove → Reader → Option Tail
unfolding note_event
tail_reader t hears reading = some t
tail_reader t (hears_input content now) reading = some (note_event t event_input content now)
tail_reader t (hears_resize content now) reading = some (note_event t event_resize content now)
tail_reader t hears_no_more reading = some (record t { reader = waiting })
tail_reader t m reading = none
tail_reader t leaves waiting = elim t.writer [
  | writing ↦ none
  | done ↦ some (record t { reader = returned })
]
tail_reader t m waiting = none
tail_reader t m returned = none

-- A line that is scanned: it is recorded, and its text is to be sent.
unfoldable pub take_line : ParseTime → Tail → Bytes → ℤ → Tail
unfolding log_line
take_line parse t line now =
    let (log, text) = log_line parse t.log line now in
    record t { source = telling text; log = log; taken = t.taken ++ text ∷ [] }

tail_source : ParseTime → Tail → TailMove → Scanner → Option Tail
unfolding take_line
tail_source parse t (scans line now) scanning = some (take_line parse t line now)
tail_source parse t scan_ends scanning = some (record t { source = over })
tail_source parse t m scanning = none
tail_source parse t tells (telling text) =
    if ltb (length t.write_ch) write_capacity
    then some (record t { source = scanning; write_ch = t.write_ch ++ output text ∷ [] })
    else none
tail_source parse t gives_up (telling text) = elim t.writer [
  | writing ↦ none
  | done ↦ some (record t { source = over })
]
tail_source parse t m (telling text) = none
tail_source parse t m over = none

tail_writer : Tail → TailMove → Writer → List Message → Scanner → Option Tail
tail_writer t writes writing (msg ∷ rest) source =
    some (record t { write_ch = rest; sent = t.sent ++ msg ∷ [] })
tail_writer t write_fails writing (msg ∷ rest) source =
    some (record t { write_ch = rest; writer = done })
tail_writer t ends writing [] over = some (record t { writer = done })
tail_writer t m w ch source = none

-- `none` is a step that may not be taken.
unfoldable pub tail_move : ParseTime → Tail → TailMove → Option Tail
unfolding tail_reader tail_source tail_writer
tail_move parse t hears = tail_reader t hears t.reader
tail_move parse t (hears_input content now) = tail_reader t (hears_input content now) t.reader
tail_move parse t (hears_resize content now) = tail_reader t (hears_resize content now) t.reader
tail_move parse t hears_no_more = tail_reader t hears_no_more t.reader
tail_move parse t leaves = tail_reader t leaves t.reader
tail_move parse t (scans line now) = tail_source parse t (scans line now) t.source
tail_move parse t scan_ends = tail_source parse t scan_ends t.source
tail_move parse t tells = tail_source parse t tells t.source
tail_move parse t gives_up = tail_source parse t gives_up t.source
tail_move parse t writes = tail_writer t writes t.writer t.write_ch t.source
tail_move parse t write_fails = tail_writer t write_fails t.writer t.write_ch t.source
tail_move parse t ends = tail_writer t ends t.writer t.write_ch t.source
