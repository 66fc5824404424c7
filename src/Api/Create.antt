-- ===== src/Api/Create.antt =====
-- internal/api/server.go: createSession, in the parts between which other requests may run, since each
-- takes and gives back the store's lock.
pub mod Created
pub mod Outcome
pub mod Race
use cternal.Prelude.{
  ℕ, suc, ◌/◌, ◌%◌, ◌+◌, ◌-◌, Bool, true, false, Option, none, some, List, [], ◌∷◌, ◌++◌, Bytes,
  codes, bytes_eq, ltb, if◌then◌else◌,
}
use cternal.Prelude.Int.{ℤ, pos, ◌+ℤ◌}
use cternal.Session.{
  Session, Mode, mode_exec, mode_attach, mode_logs, disconnected, new_session, set_status,
  with_container_name, with_runtime, with_size, with_user,
}
use cternal.Store
use cternal.Store.{ok, err, session_not_found, max_sessions_reached}
use cternal.Dict.{Dict}
use cternal.Runtime.{Runtime, Reply, gives, fails}
use cternal.Api.{
  Server, Request, Response, TimeFormat, closes, write_json, write_error, session, set_session,
  build_session_response, username, notify,
}

pub record CreateSessionRequest : Type 0 where
  pub container_id : Bytes
  pub container_name : Bytes
  pub mode : Mode
  pub shell : List Bytes
  pub since : Bytes
  pub cols : ℕ
  pub rows : ℕ

hex_digit : ℕ → ℕ
hex_digit n = if ltb n 10 then b'0' + n else b'a' + (n - 10)

-- encoding/hex, of bytes that are random
unfoldable pub generate_id : Bytes → Bytes
unfolding hex_digit
generate_id [] = []
generate_id (b ∷ bs) = hex_digit (b / 16) ∷ hex_digit (b % 16) ∷ generate_id bs

-- What the environment gives to one request: the clock, eight random bytes, the runtime's answers, the
-- time formats, and what json.Decoder makes of a body, or its error.
pub record World : Type 0 where
  pub now : ℤ
  pub random : Bytes
  pub runtime : Runtime
  pub times : TimeFormat
  pub decode : Bytes → Reply CreateSessionRequest

-- The checks of the request, and its default mode.
unfoldable pub admit : World → Request → Reply CreateSessionRequest
admit w r = elim (w.decode r.body) [
  | fails e ↦ fails (codes "invalid JSON: " ++ e)
  | gives req ↦
      if bytes_eq req.container_id []
      then fails (codes "containerId is required")
      else gives (if bytes_eq req.mode [] then record req { mode = mode_exec } else req)
]

-- The session that an attach request is given instead of a new one; the map is visited in some order.
unfoldable pub reuse : Server → Dict ℕ → CreateSessionRequest → Option ℕ
reuse s visited req =
    if bytes_eq req.mode mode_attach
    then elim (Store.get_by_container s.heap visited req.container_id mode_attach) [
      | ok p ↦ some p
      | err _ ↦ none
    ]
    else none

pub data Stream : Type 0 where
  opened : Option ℕ → Stream
  unknown_mode : Stream
  refused : Bytes → Stream

abbrev opened_by : Reply ℕ → Stream
opened_by (gives st) = opened (some st)
opened_by (fails e) = refused e

unfoldable pub connect : Runtime → CreateSessionRequest → Stream
connect rt req =
    if bytes_eq req.mode mode_exec
    then opened_by (
        rt.exec req.container_id
          (record { shell = req.shell; env = []; cols = req.cols; rows = req.rows }))
    else if bytes_eq req.mode mode_attach
    then opened_by (rt.attach req.container_id)
    else if bytes_eq req.mode mode_logs
    then opened none
    else unknown_mode

-- The new session's fields.
unfoldable pub make_session : Server → World → Request → CreateSessionRequest → Option ℕ → Session
unfolding new_session with_container_name with_runtime with_size with_user set_status generate_id
make_session s w r req strm =
    let sess = new_session (generate_id w.random) req.container_id req.mode strm w.now (
      with_container_name req.container_name
      ∷ with_runtime s.config.runtime
      ∷ with_size req.cols req.rows
      ∷ with_user (username s.config r)
      ∷ []) in
    if bytes_eq req.mode mode_logs then set_status sess disconnected else sess

-- A stream with no session is closed.
unfoldable pub drop_stream : Server → Option ℕ → Server
drop_stream s none = s
drop_stream s (some st) = record s { calls = s.calls ++ closes st ∷ [] }

-- Store.Create, and what follows it on either branch.
unfoldable pub register :
    Server → World → Request → CreateSessionRequest → Option ℕ → Server × Response
register s w r req strm =
    let sess = make_session s w r req strm in
    let s1 = record s { heap = set_session s.heap s.made sess; made = suc s.made } in
    elim (Store.create s1.heap s1.store s.made) [
      | err e ↦ (drop_stream s1 strm, write_error 503 (codes "maximum number of sessions reached"))
      | ok store ↦
          let s2 = record s1 { store = store; active_sessions = s1.active_sessions +ℤ pos 1 } in
          let s3 = notify s2 (codes "session.start") sess in
          (s3, write_json 201 (session (build_session_response w.times s3 sess r)))
    ]

-- The request with nothing between its parts.
unfoldable pub create_session : Server → World → Dict ℕ → Request → Server × Response
create_session s w visited r = elim (admit w r) [
  | fails msg ↦ (s, write_error 400 msg)
  | gives req ↦ elim (reuse s visited req) [
    | some p ↦ (s, write_json 200 (session (build_session_response w.times s (s.heap p) r)))
    | none ↦ elim (connect w.runtime req) [
      | unknown_mode ↦ (s, write_error 400 (codes "unknown mode: " ++ req.mode))
      | refused e ↦ (s, write_error 500 (codes "failed to connect: " ++ e))
      | opened strm ↦ register s w r req strm
    ]
  ]
]
