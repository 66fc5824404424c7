-- ===== src/Api/Socket/Exec.antt =====
-- internal/api/ws.go, runExecWS: the goroutines of one exec connection, and the steps that they may take
-- in any order. `reader` is the handler's own goroutine, `source` the one that reads the container's
-- stream, `writer` the one that writes to the WebSocket.
pub mod Moves
pub mod Sent
pub mod Lost
pub mod Ending
mod Tests
use cternal.Prelude.{
  ℕ, Bool, true, false, Option, none, some, List, [], ◌∷◌, ◌++◌, Bytes, ltb, if◌then◌else◌, length,
}
use cternal.Api.Socket.{Message, output, exit}
use cternal.Api.Socket.Attach.{
  Reader, reading, waiting, returned, Writer, writing, done, write_capacity,
}

-- At a read of the stream; holding a text's message; holding the exit message; at its end.
pub data Source : Type 0 where
  taking : Source
  telling : Bytes → Source
  exiting : Source
  over : Source

-- `taken` is what was read from the stream, recorded and broadcast. The source closes the write channel
-- when it is over.
pub record Exec : Type 0 where
  pub reader : Reader
  pub source : Source
  pub write_ch : List Message
  pub writer : Writer
  pub taken : List Bytes
  pub sent : List Message

unfoldable pub new_exec : Exec
new_exec = record {
  reader = reading;
  source = taking;
  write_ch = [];
  writer = writing;
  taken = [];
  sent = [];
}

-- What may happen: a message of the client is read, or a read fails, or the handler returns; a read of
-- the stream gives a text, or fails; the source sends its message, or sees that the writer is done; the
-- writer writes, or fails to, or sees the end of its channel.
pub data ExecMove : Type 0 where
  hears : ExecMove
  hears_no_more : ExecMove
  leaves : ExecMove
  takes : Bytes → ExecMove
  stream_ends : ExecMove
  tells : ExecMove
  gives_up : ExecMove
  writes : ExecMove
  write_fails : ExecMove
  ends : ExecMove

pub exec_reader : Exec → ExecMove → Reader → Option Exec
exec_reader e hears reading = some e
exec_reader e hears_no_more reading = some (record e { reader = waiting })
exec_reader e m reading = none
exec_reader e leaves waiting = elim e.writer [
  | writing ↦ none
  | done ↦ some (record e { reader = returned })
]
exec_reader e m waiting = none
exec_reader e m returned = none

-- A select of a send on the write channel and the writer's end.
tell : Exec → Message → Source → Option Exec
tell e msg next =
    if ltb (length e.write_ch) write_capacity
    then some (record e { source = next; write_ch = e.write_ch ++ msg ∷ [] })
    else none

stop_telling : Exec → Option Exec
stop_telling e = elim e.writer [ writing ↦ none | done ↦ some (record e { source = over }) ]

pub exec_source : Exec → ExecMove → Source → Option Exec
unfolding tell stop_telling
exec_source e (takes content) taking =
    some (record e { source = telling content; taken = e.taken ++ content ∷ [] })
exec_source e stream_ends taking = some (record e { source = exiting })
exec_source e m taking = none
exec_source e tells (telling content) = tell e (output content) taking
exec_source e gives_up (telling content) = stop_telling e
exec_source e m (telling content) = none
exec_source e tells exiting = tell e exit over
exec_source e gives_up exiting = stop_telling e
exec_source e m exiting = none
exec_source e m over = none

exec_writer : Exec → ExecMove → Writer → List Message → Source → Option Exec
exec_writer e writes writing (msg ∷ rest) source =
    some (record e { write_ch = rest; sent = e.sent ++ msg ∷ [] })
exec_writer e write_fails writing (msg ∷ rest) source =
    some (record e { write_ch = rest; writer = done })
exec_writer e ends writing [] over = some (record e { writer = done })
exec_writer e m w ch source = none

-- `none` is a step that may not be taken.
unfoldable pub exec_move : Exec → ExecMove → Option Exec
unfolding exec_reader exec_source exec_writer
exec_move e hears = exec_reader e hears e.reader
exec_move e hears_no_more = exec_reader e hears_no_more e.reader
exec_move e leaves = exec_reader e leaves e.reader
exec_move e (takes content) = exec_source e (takes content) e.source
exec_move e stream_ends = exec_source e stream_ends e.source
exec_move e tells = exec_source e tells e.source
exec_move e gives_up = exec_source e gives_up e.source
exec_move e writes = exec_writer e writes e.writer e.write_ch e.source
exec_move e write_fails = exec_writer e write_fails e.writer e.write_ch e.source
exec_move e ends = exec_writer e ends e.writer e.write_ch e.source
