-- ===== src/Api.antt =====
-- internal/api: the HTTP server's state and what its handlers share. The handlers are in the modules
-- below: Teardown, Create, Routes and Socket.
pub mod Invariant
pub mod Teardown
pub mod Create
pub mod Routes
pub mod Static
pub mod Mux
pub mod Access
pub mod Socket
pub mod History
pub mod Divided
pub mod Tests
use cternal.Prelude.{
  ℕ, suc, Bool, true, false, Option, none, some, List, [], ◌∷◌, ◌++◌, Bytes, codes, bytes_eq, ◌==◌,
  if◌then◌else◌,
}
use cternal.Prelude.Int.{ℤ, pos}
use cternal.Session.{Session, Mode, Status, active, disconnected, get_status}
use cternal.Store.{Store, new_store}
use cternal.Ttl.{Manager}
use cternal.Webhook
use cternal.Webhook.{Post, Payload}
use cternal.Recorder
use cternal.Recorder.{Event, Recorder, Slice, elements}
use cternal.Runtime.{Container}

pub record Config : Type 0 where
  pub runtime : Bytes
  pub max_sessions : ℤ
  pub base_path : Bytes
  pub version : Bytes
  pub scrollback : ℤ
  pub logout_url : Bytes
  pub webhook_urls : List Bytes
  pub export_url : Bytes
  pub user_header : Bytes

-- What is done to a container's stream.
pub data StreamCall : Type 0 where
  closes : ℕ → StreamCall
  writes : ℕ → Bytes → StreamCall
  resizes : ℕ → ℕ → ℕ → StreamCall

-- The sessions that were ever made, the registry, the countdowns, and what the server has done to the
-- outside: metrics, webhooks begun, recordings exported, stream calls. `connections` are the sessions
-- whose WebSocket handlers are running, one entry for each handler.
pub record Server : Type 0 where
  pub config : Config
  pub heap : ℕ → Session
  pub made : ℕ
  pub store : Store
  pub ttl_mgr : Manager
  pub active_sessions : ℤ
  pub durations : List ℤ
  pub ws_messages : List (Mode × Bytes)
  pub posts : List Post
  pub exports : List Bytes
  pub calls : List StreamCall
  pub connections : List ℕ

unfoldable pub new_server : Config → Store → Manager → (ℕ → Session) → Server
new_server config store ttl_mgr heap = record {
  config = config;
  heap = heap;
  made = 0;
  store = store;
  ttl_mgr = ttl_mgr;
  active_sessions = pos 0;
  durations = [];
  ws_messages = [];
  posts = [];
  exports = [];
  calls = [];
  connections = [];
}

pub record Request : Type 0 where
  pub method : Bytes
  pub path : Bytes
  pub host : Bytes
  pub tls : Bool
  pub header : Bytes → Bytes
  pub query : Bytes → List Bytes
  pub body : Bytes

pub record SessionResponse : Type 0 where
  pub id : Bytes
  pub container_id : Bytes
  pub container_name : Bytes
  pub runtime : Bytes
  pub mode : Mode
  pub status : Bytes
  pub ws_url : Bytes
  pub created_at : Bytes
  pub cols : ℕ
  pub rows : ℕ

pub data Body : Type 0 where
  empty : Body
  error : Bytes → Body
  session : SessionResponse → Body
  sessions : List SessionResponse → Body
  config : Config → Bytes → Body
  containers : List Container → Body
  events : Slice Event → Body
  cast : Bytes → Bytes → Body

pub record Response : Type 0 where
  pub status : ℕ
  pub body : Body

-- package net/http
abbrev pub method_get : Bytes
method_get = codes "GET"

abbrev pub method_post : Bytes
method_post = codes "POST"

abbrev pub method_delete : Bytes
method_delete = codes "DELETE"

abbrev pub write_json : ℕ → Body → Response
write_json status body = record { status = status; body = body }

abbrev pub write_error : ℕ → Bytes → Response
write_error status msg = write_json status (error msg)

abbrev pub method_not_allowed : Response
method_not_allowed = write_error 405 (codes "method not allowed")

abbrev pub set_session : (ℕ → Session) → ℕ → Session → ℕ → Session
set_session heap p s q = if p == q then s else heap q

abbrev pub status_text : Status → Bytes
status_text active = codes "active"
status_text disconnected = codes "disconnected"

-- `All` never panics.
abbrev pub recorded : Recorder → List Event
recorded r = elim (Recorder.all r) [ none ↦ [] | some s ↦ elements s ]

-- Package time's zero time is 0; `rfc3339` and `compact` are its formats of an instant in UTC.
pub record TimeFormat : Type 0 where
  pub rfc3339 : ℤ → Bytes
  pub compact : ℤ → Bytes

abbrev pub is_zero : ℤ → Bool
is_zero (pos n) = n == 0
is_zero _ = false

unfoldable pub build_session_response : TimeFormat → Server → Session → Request → SessionResponse
unfolding get_status
build_session_response times s sess r =
    let scheme = if r.tls then codes "wss" else codes "ws" in
    record {
      id = sess.id;
      container_id = sess.container_id;
      container_name = sess.container_name;
      runtime = sess.runtime;
      mode = sess.mode;
      status = status_text (get_status sess);
      ws_url = scheme ++ codes "://" ++ r.host ++ s.config.base_path ++ codes "/ws/" ++ sess.id;
      created_at = if is_zero sess.created_at then [] else times.rfc3339 sess.created_at;
      cols = sess.cols;
      rows = sess.rows;
    }

-- A header that is configured is read, for the login username.
abbrev pub username : Config → Request → Bytes
username c r = if bytes_eq c.user_header [] then [] else r.header c.user_header

-- A notification about a session.
unfoldable pub notify : Server → Bytes → Session → Server
unfolding Webhook.send Webhook.new
notify s event sess = record s {
  posts =
      s.posts
      ++ Webhook.send (Webhook.new s.config.webhook_urls) (record {
        event = event;
        session_id = sess.id;
        container = sess.container_id;
        mode = sess.mode;
      });
}
