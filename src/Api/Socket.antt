-- ===== src/Api/Socket.antt =====
-- internal/api/ws.go: a WebSocket connection to a session. What stands before and behind the copying
-- loops is here; the loops of an attach connection, with their goroutines, are in Attach.
pub mod Runs
pub mod Messages
pub mod Resize
pub mod Lifecycle
pub mod Attach
pub mod Exec
pub mod Tail
mod Tests
use cternal.Prelude.{
  ℕ, suc, Bool, true, false, Option, none, some, List, [], ◌∷◌, ◌++◌, Bytes, codes, bytes_eq, ◌==◌,
  if◌then◌else◌,
}
use cternal.Prelude.Int.{ℤ}
use cternal.Std.Decimal.{format_size}
use cternal.Recorder.{Event, event_input, event_resize, is_output, add}
use cternal.Session.{Session, Status, active, disconnected, set_status}
use cternal.Store
use cternal.Store.{ok, err}
use cternal.Ttl
use cternal.Api.{Server, StreamCall, writes, resizes, recorded, set_session}

-- types.go: what the server sends.
pub data Message : Type 0 where
  output : Bytes → Message
  error : Bytes → Message
  exit : Message

-- json.Unmarshal of a client's message: its type, the data of an input, the columns and rows of a
-- resize; `none` is an error.
pub record Wire : Type 0 where
  pub decode_type : Bytes → Option Bytes
  pub decode_input : Bytes → Option Bytes
  pub decode_resize : Bytes → Option (ℕ × ℕ)

-- A session of the heap with an event more, and the call of its stream, if it has one.
unfoldable pub note : Server → ℕ → Bytes → Bytes → ℤ → (ℕ → StreamCall) → Server
unfolding add
note s p typ content now call =
    let sess = s.heap p in
    record s {
      heap = set_session s.heap p (record sess { recorder = add sess.recorder typ content now });
      calls = elim sess.stream [ none ↦ s.calls | some st ↦ s.calls ++ call st ∷ [] ];
    }

unfoldable pub dispatch_message : Wire → Server → Bytes → ℕ → ℤ → Server
dispatch_message wire s raw p now = elim (wire.decode_type raw) [
  | none ↦ s
  | some typ ↦
      let s1 = record s { ws_messages = s.ws_messages ++ ((s.heap p).mode, typ) ∷ [] } in
      if bytes_eq typ (codes "input")
      then elim (wire.decode_input raw) [
        | none ↦ s1
        | some content ↦ note s1 p event_input content now (λ st. writes st content)
      ]
      else if bytes_eq typ (codes "resize")
      then elim (wire.decode_resize raw) [
        | none ↦ s1
        | some (cols, rows) ↦
            note s1 p event_resize (format_size cols rows) now (λ st. resizes st cols rows)
      ]
      else s1
]

-- What is sent of a recording, where the environment says which writes fail.
flush : (ℕ → Bool) → ℕ → List Event → List Message → List Message
flush write_fails i [] sent = sent
flush write_fails i (ev ∷ evs) sent = elim (is_output ev) [
  | false ↦ flush write_fails i evs sent
  | true ↦ elim (write_fails i) [
    | true ↦ sent
    | false ↦ flush write_fails (suc i) evs (sent ++ output ev.content ∷ [])
  ]
]

unfoldable pub flush_events : (ℕ → Bool) → Session → List Message
unfolding flush
flush_events write_fails sess = flush write_fails 0 (recorded sess.recorder) []

pub data Opening : Type 0 where
  bad_request : Opening
  not_found : Opening
  not_upgraded : Opening
  connected : ℕ → List Message → Opening

unfoldable pub put_status : Server → ℕ → Status → Server
unfolding set_status
put_status s p st = record s { heap = set_session s.heap p (set_status (s.heap p) st) }

-- handleWebSocket up to its loops.
unfoldable pub open_socket : Server → Bytes → Bool → (ℕ → Bool) → Server × Opening
open_socket s id upgrades write_fails =
    if bytes_eq id [] then (s, bad_request) else elim (Store.get s.store id) [
      | err _ ↦ (s, not_found)
      | ok p ↦
          let s1 = record s { ttl_mgr = (Ttl.cancel_ttl s.ttl_mgr id).0 } in
          let s2 = put_status s1 p active in
          if upgrades
          then (
            record s2 { connections = p ∷ s2.connections },
            connected p (flush_events write_fails (s2.heap p)),
          )
          else (s, not_upgraded)
    ]

leave : ℕ → List ℕ → List ℕ
leave p [] = []
leave p (q ∷ qs) = if q == p then qs else q ∷ leave p qs

-- handleWebSocket behind its loops, for a connection to the session `p` that was opened under `id`.
unfoldable pub close_socket : Server → Bytes → ℕ → ℤ → Server
unfolding leave
close_socket s id p now =
    let s1 = put_status s p disconnected in
    record s1 { ttl_mgr = Ttl.start_ttl s1.ttl_mgr id now; connections = leave p s1.connections }
