-- ===== src/Api/Socket/Attach.antt =====
-- internal/api/ws.go, runAttachWS: the goroutines of one attach connection, and the steps that they may
-- take in any order. `reader` is the handler's own goroutine, `forwarder` the one that reads the
-- subscription, `writer` the one that writes to the WebSocket.
pub mod Moves
pub mod Delivery
pub mod Waiting
pub mod Ending
mod Tests
use cternal.Prelude.{
  ℕ, Bool, true, false, Option, none, some, List, [], ◌∷◌, ◌++◌, Bytes, ltb, if◌then◌else◌, length,
}
use cternal.Session.{Subscription, ch_capacity, offer}

-- Reading messages; waiting for `done` after a read has failed; or returned.
pub data Reader : Type 0 where
  reading : Reader
  waiting : Reader
  returned : Reader

pub data Forwarder : Type 0 where
  idle : Forwarder
  holding : Bytes → Forwarder
  closed : Forwarder

pub data Writer : Type 0 where
  writing : Writer
  done : Writer

-- `sent` is what was written to the WebSocket. The forwarder closes the write channel when it ends.
pub record Attach : Type 0 where
  pub reader : Reader
  pub sub : Subscription
  pub forwarder : Forwarder
  pub write_ch : List Bytes
  pub writer : Writer
  pub sent : List Bytes

abbrev pub write_capacity : ℕ
write_capacity = 64

unfoldable pub new_attach : Attach
new_attach = record {
  reader = reading;
  sub = record { ch = []; done = false };
  forwarder = idle;
  write_ch = [];
  writer = writing;
  sent = [];
}

-- What may happen: the pump broadcasts; a message of the client is read, or a read fails; the
-- forwarder receives a text or sees that the subscription is done, sends its text or sees that the
-- writer is done; the writer writes, or fails to, or sees the end of its channel; the handler returns.
pub data Move : Type 0 where
  broadcasts : Bytes → Move
  reads : Move
  read_fails : Move
  receives : Move
  sees_done : Move
  sends : Move
  gives_up : Move
  writes : Move
  write_fails : Move
  ends : Move
  returns : Move

pub move_reader : Attach → Move → Reader → Option Attach
move_reader a reads reading = some a
move_reader a read_fails reading = some (record a { reader = waiting })
move_reader a m reading = none
move_reader a returns waiting = elim a.writer [
  | writing ↦ none
  | done ↦ some (record a { reader = returned; sub = record a.sub { done = true } })
]
move_reader a m waiting = none
move_reader a m returned = none

receive : Attach → List Bytes → Option Attach
receive a [] = none
receive a (content ∷ rest) =
    some (record a { forwarder = holding content; sub = record a.sub { ch = rest } })

-- A select on the subscription while the forwarder holds nothing, on the write channel while it does.
pub move_forwarder : Attach → Move → Forwarder → Option Attach
unfolding receive
move_forwarder a receives idle = receive a a.sub.ch
move_forwarder a sees_done idle =
    if a.sub.done then some (record a { forwarder = closed }) else none
move_forwarder a m idle = none
move_forwarder a sends (holding content) =
    if ltb (length a.write_ch) write_capacity
    then some (record a { forwarder = idle; write_ch = a.write_ch ++ content ∷ [] })
    else none
move_forwarder a gives_up (holding content) = elim a.writer [
  | writing ↦ none
  | done ↦ some (record a { forwarder = closed })
]
move_forwarder a m (holding content) = none
move_forwarder a m closed = none

-- The channel that the writer ranges over, and whether it is closed.
move_writer : Attach → Move → Writer → List Bytes → Forwarder → Option Attach
move_writer a writes writing (content ∷ rest) f =
    some (record a { write_ch = rest; sent = a.sent ++ content ∷ [] })
move_writer a write_fails writing (content ∷ rest) f =
    some (record a { write_ch = rest; writer = done })
move_writer a ends writing [] closed = some (record a { writer = done })
move_writer a m w ch f = none

-- `none` is a step that may not be taken.
unfoldable pub move : Attach → Move → Option Attach
unfolding move_reader move_forwarder move_writer
move a (broadcasts content) = some (record a { sub = offer content a.sub })
move a reads = move_reader a reads a.reader
move a read_fails = move_reader a read_fails a.reader
move a returns = move_reader a returns a.reader
move a receives = move_forwarder a receives a.forwarder
move a sees_done = move_forwarder a sees_done a.forwarder
move a sends = move_forwarder a sends a.forwarder
move a gives_up = move_forwarder a gives_up a.forwarder
move a writes = move_writer a writes a.writer a.write_ch a.forwarder
move a write_fails = move_writer a write_fails a.writer a.write_ch a.forwarder
move a ends = move_writer a ends a.writer a.write_ch a.forwarder
