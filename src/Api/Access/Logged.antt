-- ===== src/Api/Access/Logged.antt =====
-- The status in the access log, and the status that is sent.
use cternal.Prelude.{ℕ, ◌≤◌, ◌≡◌, refl, arith, inl, inr, ◌⊎◌, some, [], ◌∷◌, Bytes, Option-cases}
use mathlib.Core.Path.{subst}
use cternal.Floats.{Floats}
use cternal.Dict.{Dict}
use cternal.Recorder.Cast.{Json}
use cternal.Api.{Server, Request, Response}
use cternal.Api.Create.{World}
use cternal.Api.Mux.{
  Route, to_config, to_containers, to_sessions, to_session, to_websocket, to_static, moved,
  no_route, route, Answer, responds, shows, upgrades, redirects, nothing, Frontend, serve_http,
}
use cternal.Api.Static.{not_found, file, html}
use cternal.Api.Access.Statuses.{
  IsFinal, handle_config-IsFinal, handle_containers-IsFinal, handle_sessions-IsFinal,
  handle_session-IsFinal,
}
use cternal.Api.Access.{
  hijacks, status_sent, ResponseWriter, write_header, hijack, Outside, http_error, respond, upgrade,
  write_answer, access_log,
}

-- The file server, the redirects and the upgrader's refusals have final statuses.
pub record IsHttp (out : Outside) (r : Request) : Type 0 where
  pub files : (path : Bytes) → 200 ≤ out.file_status path
  pub redirect : 200 ≤ out.redirect_status
  pub refusal : (code : ℕ) → out.upgrade_error r ≡ some code → 200 ≤ code

abbrev fresh : ResponseWriter
fresh = record { status_code = 200; passed = [] }

-- The noted status is sent, or the connection is taken over with no status noted.
abbrev pub IsNoted : ResponseWriter → Type 0
IsNoted rw =
    (status_sent rw.passed ≡ some rw.status_code)
    ⊎ ((rw.passed ≡ hijacks ∷ []) × (rw.status_code ≡ 200))

http_error-IsNoted : (code : ℕ) → 200 ≤ code → IsNoted (http_error fresh code)
unfolding http_error write_header status_sent
http_error-IsNoted code h = inl (ground arith)

respond_final :
    (response : Response)
    → IsFinal response
    → (status_sent (respond fresh response).passed ≡ some response.status)
      × ((respond fresh response).status_code ≡ response.status)
unfolding respond http_error write_header status_sent
respond_final response v = ground (arith, v.low, v.plain)

module _ (out : Outside) (s : Server) (r : Request) (v : IsHttp out r) where
  upgrade-IsNoted : (id : Bytes) → IsNoted (upgrade out s r id fresh)
  unfolding upgrade hijack http_error write_header status_sent
  upgrade-IsNoted id = elim (Option-cases (out.upgrade_error r)) [
    | inl none_such ↦ ground arith
    | inr (code, refused) ↦ ground (arith, v.refusal code refused)
  ]

  write_answer-IsNoted :
      (a : Answer)
      → ((response : Response) → a ≡ responds response → IsFinal response)
      → IsNoted (write_answer out s r a fresh)
  unfolding write_answer status_sent
  write_answer-IsNoted (responds response) final =
      let (sent, noted) = respond_final response (final response refl) in
      inl (ground (arith, sent, noted))
  write_answer-IsNoted (shows not_found) final = http_error-IsNoted 404 (omega arith)
  write_answer-IsNoted (shows (file path)) final =
      http_error-IsNoted (out.file_status path) (v.files path)
  write_answer-IsNoted (shows (html content)) final = inl refl
  write_answer-IsNoted (upgrades id) final = upgrade-IsNoted id
  write_answer-IsNoted redirects final = http_error-IsNoted out.redirect_status v.redirect
  write_answer-IsNoted nothing final = http_error-IsNoted 404 (omega arith)

responds-injective : {a b : Response} → responds a ≡ responds b → a ≡ b
responds-injective e = cc

module _ (fl : Floats) (json : Json fl) (front : Frontend) (s : Server) (w : World)
    (visited : Dict ℕ) (r : Request) where
  routed-IsFinal :
      (t : Route)
      → route s.config.base_path r.path ≡ t
      → (response : Response) → (serve_http fl json front s w visited r).1 ≡ responds response
      → IsFinal response
  unfolding serve_http
  routed-IsFinal to_config e response h =
      subst IsFinal (responds-injective (rw (serve_http, e) at h)) (handle_config-IsFinal s r)
  routed-IsFinal to_containers e response h =
      subst IsFinal (responds-injective (rw (serve_http, e) at h))
        (handle_containers-IsFinal w.runtime r)
  routed-IsFinal to_sessions e response h =
      subst IsFinal (responds-injective (rw (serve_http, e) at h))
        (handle_sessions-IsFinal s w visited r)
  routed-IsFinal to_session e response h =
      subst IsFinal (responds-injective (rw (serve_http, e) at h))
        (handle_session-IsFinal fl json s w r)
  routed-IsFinal (to_websocket id) e response h = absurd (let h' = rw (serve_http, e) at h in cc)
  routed-IsFinal to_static e response h = absurd (let h' = rw (serve_http, e) at h in cc)
  routed-IsFinal moved e response h = absurd (let h' = rw (serve_http, e) at h in cc)
  routed-IsFinal no_route e response h = absurd (let h' = rw (serve_http, e) at h in cc)

  -- For every request, the status in the line of the access log is the status of the response that is sent,
  -- and a REST handler's response is sent with the status that it has, from 200 to 599; only where the
  -- connection is taken over by a WebSocket is the logged status 200 and no response sent. The condition is
  -- that the file server, the redirects and the upgrader's refusals have statuses from 200.
  pub access_log_lem :
      (out : Outside)
      → IsHttp out r
      → let a = (serve_http fl json front s w visited r).1 in
        let (calls, entry) = access_log s.config.user_header r (write_answer out s r a) in
        ((status_sent calls ≡ some entry.status) ⊎ ((calls ≡ hijacks ∷ []) × (entry.status ≡ 200)))
        × ((response : Response)
            → a ≡ responds response
            → (status_sent calls ≡ some response.status)
              × (200 ≤ response.status)
              × (response.status ≤ 599))
  unfolding access_log write_answer
  access_log_lem out v =
      let final = routed-IsFinal (route s.config.base_path r.path) refl in
      (
        write_answer-IsNoted out s r v (serve_http fl json front s w visited r).1 final,
        λ response e.
            let f = final response e in (rw e (respond_final response f).0, f.low, f.high),
      )
