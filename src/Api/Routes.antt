-- ===== src/Api/Routes.antt =====
-- internal/api/server.go: the REST handlers.
pub mod Paths
pub mod Methods
use cternal.Prelude.{
  ℕ, Bool, true, false, Option, none, some, List, [], ◌∷◌, ◌++◌, Bytes, codes, bytes_eq,
  if◌then◌else◌, map, length, take, drop, leb,
}
use cternal.Prelude.Int.{ℤ}
use cternal.Std.{split_at_byte}
use cternal.Floats.{Floats}
use cternal.Dict.{Dict, insert}
use cternal.Recorder
use cternal.Recorder.{Slice, nil}
use cternal.Recorder.Cast.{Json}
use cternal.Session.{Session}
use cternal.Store
use cternal.Store.{ok, err}
use cternal.Runtime.{Filter, Runtime, gives, fails}
use cternal.Api.{
  Server, Request, Response, TimeFormat, method_get, method_post, method_delete, method_not_allowed,
  write_json, write_error, recorded, is_zero, build_session_response, username,
}
use cternal.Api as api
use cternal.Api.Teardown.{cast_size, marshal_cast, evict}
use cternal.Api.Create.{World, create_session}

abbrev first : List Bytes → Bytes
first [] = []
first (v ∷ vs) = v

-- strings.Cut at the first `=`; a label without one has an empty value.
add_labels : List Bytes → Dict Bytes → Dict Bytes
add_labels [] labels = labels
add_labels (lbl ∷ lbls) labels = add_labels lbls (elim (split_at_byte b'=' lbl) [
  | some (before, after) ↦ insert before after labels
  | none ↦ insert lbl [] labels
])

unfoldable pub container_filter : Request → Filter
unfolding add_labels
container_filter r = record {
  name = first (r.query (codes "name"));
  status = first (r.query (codes "status"));
  labels = add_labels (r.query (codes "label")) [];
}

unfoldable pub handle_config : Server → Request → Response
handle_config s r =
    if bytes_eq r.method method_get
    then write_json 200 (api.config s.config (username s.config r))
    else method_not_allowed

unfoldable pub handle_containers : Runtime → Request → Response
unfolding container_filter
handle_containers rt r =
    if bytes_eq r.method method_get
    then elim (rt.list_containers (container_filter r)) [
      | gives cs ↦ write_json 200 (api.containers cs)
      | fails e ↦ write_error 500 (codes "failed to list containers")
    ]
    else method_not_allowed

unfoldable pub handle_sessions : Server → World → Dict ℕ → Request → Server × Response
handle_sessions s w visited r =
    if bytes_eq r.method method_get
    then (
      s,
      write_json 200 (
          api.sessions
            (map (λ p. build_session_response w.times s (s.heap p) r) (Store.list visited))),
    )
    else if bytes_eq r.method method_post
    then create_session s w visited r
    else (s, method_not_allowed)

abbrev pub sessions_path : Bytes
sessions_path = codes "/api/v1/sessions/"

-- The id and the rest of a path behind the prefix; the loop breaks at the first slash.
unfoldable pub split_path : Bytes → Bytes × Bytes
unfolding split_at_byte
split_path rest = elim (split_at_byte b'/' rest) [
  | none ↦ (rest, [])
  | some (id, sub) ↦ if bytes_eq id [] then (rest, sub) else (id, sub)
]

-- The container's name, or the first twelve bytes of its id, and the time of creation.
unfoldable pub cast_filename : TimeFormat → Session → Bytes
cast_filename times sess =
    let short =
      if leb 12 (length sess.container_id) then take 12 sess.container_id else sess.container_id in
    let name = if bytes_eq sess.container_name [] then short else sess.container_name in
    let ts = if is_zero sess.created_at then [] else codes "_" ++ times.compact sess.created_at in
    name ++ ts ++ codes ".cast"

abbrev or_nil : Option (Slice Recorder.Event) → Slice Recorder.Event
or_nil none = nil
or_nil (some s) = s

module _ (fl : Floats) (json : Json fl) where
  unfoldable pub handle_cast : TimeFormat → Session → Response
  unfolding cast_size marshal_cast cast_filename
  handle_cast times sess =
      let evs = recorded sess.recorder in
      let (width, height) = cast_size evs in
      elim (marshal_cast fl json width height evs) [
        | none ↦ write_error 500 (codes "failed to marshal cast")
        | some content ↦ write_json 200 (api.cast (cast_filename times sess) content)
      ]

  -- The routes below a session that has been found.
  unfoldable pub serve_session : Server → World → Request → ℕ → Bytes → Server × Response
  serve_session s w r p sub =
      let sess = s.heap p in
      if bytes_eq sub []
      then (if bytes_eq r.method method_get
          then (s, write_json 200 (api.session (build_session_response w.times s sess r)))
          else if bytes_eq r.method method_delete
          then (evict fl json s p w.now, record { status = 204; body = api.empty })
          else (s, method_not_allowed))
      else if bytes_eq sub (codes "cast")
      then (if bytes_eq r.method method_get
          then (s, handle_cast w.times sess)
          else (s, method_not_allowed))
      else if bytes_eq sub (codes "events")
      then (if bytes_eq r.method method_get
          then (s, write_json 200 (api.events (or_nil (Recorder.all sess.recorder))))
          else (s, method_not_allowed))
      else (s, write_error 404 (codes "not found"))

  unfoldable pub handle_session : Server → World → Request → Server × Response
  handle_session s w r =
      let rest = drop (length (s.config.base_path ++ sessions_path)) r.path in
      let (id, sub) = split_path rest in
      elim (Store.get s.store id) [
        | err _ ↦ (s, write_error 404 (codes "session not found"))
        | ok p ↦ serve_session s w r p sub
      ]
