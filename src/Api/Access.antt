-- ===== src/Api/Access.antt =====
-- internal/api/server.go: accessLog and responseWriter, around the handlers, and what the handlers call of
-- the response writer. The response itself is net/http's. The upgrader of gorilla/websocket, the file server
-- and the redirects of http.ServeMux are parameters; the duration of a request is left out.
pub mod Statuses
pub mod Logged
mod Tests
use cternal.Prelude.{
  ℕ, suc, Bool, true, false, Option, none, some, List, [], ◌∷◌, ◌++◌, Bytes, codes, bytes_eq,
  is_empty, if◌then◌else◌, ltb, ◌==◌, ◌&&◌, not,
}
use cternal.Store
use cternal.Store.{ok, err}
use cternal.Api.{Server, Request, Response, empty, cast}
use cternal.Api.Mux.{Answer, responds, shows, upgrades, redirects, nothing}
use cternal.Api.Static.{not_found, file, html}

-- The calls of a response writer that a handler makes.
pub data WriterCall : Type 0 where
  writes_header : ℕ → WriterCall
  writes : WriterCall
  hijacks : WriterCall

-- What net/http sends for the calls: the status of the response, or none, if the connection is taken over.
-- A status below 200 other than 101 is for information and is followed by another.
unfoldable pub status_sent : List WriterCall → Option ℕ
status_sent [] = some 200
status_sent (writes_header code ∷ calls) =
    let rest = status_sent calls in if ltb code 200 && not (code == 101) then rest else some code
status_sent (writes ∷ calls) = some 200
status_sent (hijacks ∷ calls) = none

-- The writer that the handlers are given: the status it has noted, and the calls that it has passed on.
pub record ResponseWriter : Type 0 where
  pub status_code : ℕ
  pub passed : List WriterCall

unfoldable pub write_header : ResponseWriter → ℕ → ResponseWriter
write_header rw code = record { status_code = code; passed = rw.passed ++ writes_header code ∷ [] }

-- Hijack; the error is that of a writer below that cannot be taken over.
unfoldable pub hijack : Bool → ResponseWriter → ResponseWriter × Option Bytes
hijack hijackable rw =
    if hijackable
    then (record rw { passed = rw.passed ++ hijacks ∷ [] }, none)
    else (rw, some (codes "hijack: feature not supported"))

-- What the handlers depend on: the statuses of the file server for a file and of a redirect, the status with
-- which the upgrader refuses a request, and whether the server's own writer can be taken over.
pub record Outside : Type 0 where
  pub file_status : Bytes → ℕ
  pub redirect_status : ℕ
  pub upgrade_error : Request → Option ℕ
  pub hijackable : Bool

-- http.Error
unfoldable pub http_error : ResponseWriter → ℕ → ResponseWriter
unfolding write_header
http_error rw code =
    let rw' = write_header rw code in record rw' { passed = rw'.passed ++ writes ∷ [] }

-- writeJSON and writeError, the answer to a DELETE, which is a status alone, and the download of a
-- recording, which is written with no status.
unfoldable pub respond : ResponseWriter → Response → ResponseWriter
unfolding write_header http_error
respond rw response = elim response.body [
  | empty ↦ write_header rw response.status
  | cast filename content ↦ record rw { passed = rw.passed ++ writes ∷ [] }
  | _ ↦ http_error rw response.status
]

module _ (out : Outside) where
  -- handleWebSocket, up to the upgrade
  unfoldable pub upgrade : Server → Request → Bytes → ResponseWriter → ResponseWriter
  unfolding http_error hijack
  upgrade s r id rw = if is_empty id then http_error rw 400 else elim (Store.get s.store id) [
    | err e ↦ http_error rw 404
    | ok p ↦ elim (out.upgrade_error r) [
      | some code ↦ http_error rw code
      | none ↦
          let (rw', failed) = hijack out.hijackable rw in
          elim failed [ none ↦ rw' | some e ↦ http_error rw' 500 ]
    ]
  ]

  unfoldable pub write_answer : Server → Request → Answer → ResponseWriter → ResponseWriter
  unfolding respond upgrade http_error
  write_answer s r (responds response) rw = respond rw response
  write_answer s r (shows not_found) rw = http_error rw 404
  write_answer s r (shows (file path)) rw = http_error rw (out.file_status path)
  write_answer s r (shows (html content)) rw = record rw { passed = rw.passed ++ writes ∷ [] }
  write_answer s r (upgrades id) rw = upgrade s r id rw
  write_answer s r redirects rw = http_error rw out.redirect_status
  write_answer s r nothing rw = http_error rw 404

-- The line of the log, less the duration.
pub record Entry : Type 0 where
  pub method : Bytes
  pub path : Bytes
  pub status : ℕ
  pub user : Option Bytes

-- accessLog around a handler, which works on the writer that it is given.
unfoldable pub access_log :
    Bytes → Request → (ResponseWriter → ResponseWriter) → List WriterCall × Entry
access_log user_header r next =
    let rw = next (record { status_code = 200; passed = [] }) in
    (
      rw.passed,
      record {
        method = r.method;
        path = r.path;
        status = rw.status_code;
        user = if is_empty user_header then none else some (r.header user_header);
      },
    )
