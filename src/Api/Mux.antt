-- ===== src/Api/Mux.antt =====
-- internal/api/server.go, registerRoutes and Handler: which handler a request gets to. The patterns are
-- those of http.ServeMux, for a path that is clean. The access log is in Api/Access; the tracing around the
-- handlers is left out.
pub mod Urls
pub mod Cases
mod Tests
use cternal.Prelude.{
  ℕ, Bool, true, false, Option, none, some, [], ◌∷◌, ◌++◌, Bytes, codes, bytes_eq, is_empty,
  if◌then◌else◌,
}
use cternal.Std.{strip_prefix, has_prefix, contains}
use cternal.Floats.{Floats}
use cternal.Dict.{Dict}
use cternal.Recorder.Cast.{Json}
use cternal.Api.{Server, Request, Response}
use cternal.Api.Create.{World}
use cternal.Api.Routes.{
  sessions_path, handle_config, handle_containers, handle_sessions, handle_session,
}
use cternal.Api.Static.{Files, Page, static_handler}

pub data Route : Type 0 where
  to_config : Route
  to_containers : Route
  to_sessions : Route
  to_session : Route
  to_websocket : Bytes → Route
  to_static : Route
  -- A path without the slash of a pattern is sent to the path with it.
  moved : Route
  no_route : Route

-- What the wildcard of a pattern takes: a part that is not empty, of one segment.
unfoldable pub is_segment : Bytes → Bool
unfolding contains
is_segment [] = false
is_segment (c ∷ s) = if contains (c ∷ s) (codes "/") then false else true

-- The path behind the base path; the longer patterns are tried first.
unfoldable pub route_below : Bytes → Route
unfolding has_prefix is_segment
route_below rest =
    if is_empty rest
    then moved
    else if bytes_eq rest (codes "/api/v1/config")
    then to_config
    else if bytes_eq rest (codes "/api/v1/containers")
    then to_containers
    else if bytes_eq rest (codes "/api/v1/sessions")
    then to_sessions
    else if has_prefix sessions_path rest
    then to_session
    else elim (strip_prefix (codes "/ws/") rest) [
      | none ↦ if has_prefix (codes "/") rest then to_static else no_route
      | some id ↦ if is_segment id then to_websocket id else to_static
    ]

unfoldable pub route : Bytes → Bytes → Route
unfolding route_below strip_prefix
route base_path path = elim (strip_prefix base_path path) [
  | none ↦ no_route
  | some rest ↦ route_below rest
]

-- What a request comes to: a handler's response, a page, or an upgrade for the id of a session.
pub data Answer : Type 0 where
  responds : Response → Answer
  shows : Page → Answer
  upgrades : Bytes → Answer
  redirects : Answer
  nothing : Answer

-- What the pages are made of: Sprintf's quoting, and the files, if the build has embedded them.
pub record Frontend : Type 0 where
  pub quoted : Bytes → Bytes
  pub files : Option Files

module _ (fl : Floats) (json : Json fl) (front : Frontend) where
  unfoldable pub serve_http : Server → World → Dict ℕ → Request → Server × Answer
  unfolding route
  serve_http s w visited r = elim (route s.config.base_path r.path) [
    | to_config ↦ (s, responds (handle_config s r))
    | to_containers ↦ (s, responds (handle_containers w.runtime r))
    | to_sessions ↦ let (s', response) = handle_sessions s w visited r in (s', responds response)
    | to_session ↦ let (s', response) = handle_session fl json s w r in (s', responds response)
    | to_websocket id ↦ (s, upgrades id)
    | to_static ↦ (s, shows (static_handler front.quoted front.files s.config.base_path r.path))
    | moved ↦ (s, redirects)
    | no_route ↦ (s, nothing)
  ]
