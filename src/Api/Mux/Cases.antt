-- ===== src/Api/Mux/Cases.antt =====
-- What a request does to the server, by whatever route it comes.
use cternal.Prelude.{
  ℕ, ◌≡◌, refl, Bool-cases, Option-cases, inl, inr, ◌⊎◌, Option, none, Bytes, bytes_eq,
}
use cternal.Dict.{Dict}
use cternal.Floats.{Floats}
use cternal.Recorder.Cast.{Json}
use cternal.Runtime.{gives}
use cternal.Runtime.Docker.Calls.{Reply-cases}
use cternal.Store
use cternal.Store.{ok}
use cternal.Api.{Server, Request, method_get, method_post}
use cternal.Api.Teardown.{evict_session}
use cternal.Api.Create.{
  World, CreateSessionRequest, Stream, unknown_mode, refused, opened, admit, reuse, connect,
  register, create_session,
}
use cternal.Api.Routes.{handle_sessions}
use cternal.Api.Routes.Methods.{handle_session-cases}
use cternal.Api.Mux.{
  Route, to_config, to_containers, to_sessions, to_session, to_websocket, to_static, moved,
  no_route, Frontend, route, serve_http,
}

module _ (s : Server) (w : World) (visited : Dict ℕ) (r : Request) where
  -- A request for a session changes nothing, or registers one.
  create_session-cases :
      ((create_session s w visited r).0 ≡ s)
      ⊎ ((req : CreateSessionRequest) × (strm : Option ℕ) × ((create_session s w visited r).0
            ≡ (register s w r req strm).0))
  unfolding create_session
  create_session-cases = elim (Reply-cases (admit w r)) [
    | inr (msg, bad) ↦ inl (rw (create_session, bad) refl)
    | inl (req, fine) ↦ elim (Option-cases (reuse s visited req)) [
      | inr (p, found) ↦ inl (rw (create_session, fine, found) refl)
      | inl new ↦ connected req fine new (connect w.runtime req) refl
    ]
  ]
    where
      connected :
          (req : CreateSessionRequest)
          → admit w r ≡ gives req
          → reuse s visited req ≡ none
          → (c : Stream) → connect w.runtime req ≡ c
          → ((create_session s w visited r).0 ≡ s)
            ⊎ ((req : CreateSessionRequest) × (strm : Option ℕ) × ((create_session s w visited r).0
                  ≡ (register s w r req strm).0))
      connected req fine new unknown_mode c = inl (rw (create_session, fine, new, c) refl)
      connected req fine new (refused e) c = inl (rw (create_session, fine, new, c) refl)
      connected req fine new (opened strm) c =
          inr (req, strm, rw (create_session, fine, new, c) refl)

  handle_sessions-cases :
      ((handle_sessions s w visited r).0 ≡ s)
      ⊎ ((req : CreateSessionRequest) × (strm : Option ℕ) × ((handle_sessions s w visited r).0
            ≡ (register s w r req strm).0))
  unfolding handle_sessions
  handle_sessions-cases = elim (Bool-cases (bytes_eq r.method method_get)) [
    | inl reads ↦ inl (rw (handle_sessions, reads) refl)
    | inr other ↦ elim (Bool-cases (bytes_eq r.method method_post)) [
      | inl posts ↦ rw (handle_sessions, other, posts) create_session-cases
      | inr neither ↦ inl (rw (handle_sessions, other, neither) refl)
    ]
  ]

  module _ (fl : Floats) (json : Json fl) (front : Frontend) where
    routed-cases :
        (t : Route)
        → route s.config.base_path r.path ≡ t
        → ((serve_http fl json front s w visited r).0 ≡ s)
          ⊎ ((req : CreateSessionRequest) × (strm : Option ℕ) × ((serve_http fl json front s w
                  visited r).0
                ≡ (register s w r req strm).0))
          ⊎ ((id : Bytes) × (p : ℕ) × (Store.get s.store id ≡ ok p)
              × ((serve_http fl json front s w visited r).0 ≡ evict_session fl json s id w.now))
    unfolding serve_http
    routed-cases to_config e = inl (rw (serve_http, e) refl)
    routed-cases to_containers e = inl (rw (serve_http, e) refl)
    routed-cases to_sessions e = elim handle_sessions-cases [
      | inl same ↦ inl (rw (serve_http, e) same)
      | inr (req, strm, made) ↦ inr (inl (req, strm, rw (serve_http, e) made))
    ]
    routed-cases to_session e = elim (handle_session-cases fl json s w r) [
      | inl same ↦ inl (rw (serve_http, e) same)
      | inr (id, p, found, torn) ↦ inr (inr (id, p, found, rw (serve_http, e) torn))
    ]
    routed-cases (to_websocket id) e = inl (rw (serve_http, e) refl)
    routed-cases to_static e = inl (rw (serve_http, e) refl)
    routed-cases moved e = inl (rw (serve_http, e) refl)
    routed-cases no_route e = inl (rw (serve_http, e) refl)

    -- By whatever route, a request changes nothing of the server's state, registers a session, or tears down
    -- one that was found.
    pub serve_http-cases :
        ((serve_http fl json front s w visited r).0 ≡ s)
        ⊎ ((req : CreateSessionRequest) × (strm : Option ℕ) × ((serve_http fl json front s w visited
                r).0
              ≡ (register s w r req strm).0))
        ⊎ ((id : Bytes) × (p : ℕ) × (Store.get s.store id ≡ ok p)
            × ((serve_http fl json front s w visited r).0 ≡ evict_session fl json s id w.now))
    serve_http-cases = routed-cases (route s.config.base_path r.path) refl
