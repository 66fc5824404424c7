-- ===== src/Api/Teardown.antt =====
-- internal/api/server.go and util.go: how a session ends, by a DELETE or when its countdown runs out,
-- and what becomes of its recording.
pub mod Ended
use cternal.Prelude.{
  ℕ, Bool, true, false, Option, none, some, List, [], ◌∷◌, ◌++◌, Bytes, codes, bytes_eq,
  if◌then◌else◌,
}
use cternal.Prelude.Int.{ℤ, pos, negsuc, ◌+ℤ◌}
use cternal.Std.Decimal.{scan_size}
use cternal.Floats.{Floats}
use cternal.Recorder.{Event, event_resize, since}
use cternal.Recorder.Cast.{Header, Json, marshal}
use cternal.Session.{Session}
use cternal.Store
use cternal.Store.{ok, err}
use cternal.Ttl
use cternal.Api.{Server, closes, recorded, is_zero, notify}

-- The size in the first resize event, if it can be read, or 80x24.
unfoldable pub cast_size : List Event → ℤ × ℤ
unfolding scan_size
cast_size [] = (pos 80, pos 24)
cast_size (ev ∷ evs) =
    if bytes_eq ev.typ event_resize
    then elim (scan_size ev.content) [ none ↦ (pos 80, pos 24) | some size ↦ size ]
    else cast_size evs

-- Stream.Close, where the session has a stream.
unfoldable pub close_stream : Server → Session → Server
close_stream s sess = elim sess.stream [
  | none ↦ s
  | some st ↦ record s { calls = s.calls ++ closes st ∷ [] }
]

-- The metrics of a session that ends at `now`.
unfoldable pub count_end : Server → Session → ℤ → Server
unfolding ◌+ℤ◌ since
count_end s sess now = record s {
  active_sessions = s.active_sessions +ℤ negsuc 0;
  durations =
      if is_zero sess.created_at
      then s.durations
      else s.durations ++ since now sess.created_at ∷ [];
}

module _ (fl : Floats) (json : Json fl) where
  unfoldable pub marshal_cast : ℤ → ℤ → List Event → Option Bytes
  unfolding marshal
  marshal_cast width height events =
      marshal fl json
        (record {
          version = pos 0;
          width = width;
          height = height;
          timestamp = pos 0;
          title = [];
          idle_time_limit = fl.one;
          env = none;
        })
        events

  unfoldable pub auto_export : Server → Session → Server
  unfolding cast_size marshal_cast
  auto_export s sess =
      let events = recorded sess.recorder in
      let (width, height) = cast_size events in
      if bytes_eq s.config.export_url [] then s else elim (marshal_cast width height events) [
        | none ↦ s
        | some content ↦ record s { exports = s.exports ++ content ∷ [] }
      ]

  unfoldable pub evict : Server → ℕ → ℤ → Server
  evict s p now =
      let sess = s.heap p in
      let s1 = record s { ttl_mgr = Ttl.remove s.ttl_mgr sess.id } in
      let s2 = close_stream s1 sess in
      let s3 = record s2 { store = Store.remove s2.store sess.id } in
      auto_export (notify (count_end s3 sess now) (codes "session.end") sess) sess

  unfoldable pub evict_session : Server → Bytes → ℤ → Server
  evict_session s id now = elim (Store.get s.store id) [ err _ ↦ s | ok p ↦ evict s p now ]

  -- A timer's function: the callback, and the removal of its entry behind it.
  unfoldable pub expire : Server → ℕ → ℤ → Server
  expire s t now = elim (Ttl.fire s.ttl_mgr t now) [
    | none ↦ s
    | some (id, m) ↦
        let s1 = evict_session (record s { ttl_mgr = m }) id now in
        record s1 { ttl_mgr = Ttl.forget s1.ttl_mgr id }
  ]
