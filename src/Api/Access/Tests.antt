-- ===== src/Api/Access/Tests.antt =====
-- Examples of requests and what is logged of them.
use cternal.Prelude.{◌≤◌, ◌≡◌, refl, arith, ◌⊎◌, true, none, some, [], ◌∷◌, codes, bytes_eq}
use cternal.Dict.{lookup}
use cternal.Store.{get}
use cternal.Api.{Request, Response}
use cternal.Api.Tests.{world, request}
use cternal.Api.Mux.{responds, Frontend, upgrades, serve_http}
use cternal.Api.Access.{
  hijacks, status_sent, Outside, hijack, http_error, write_header, upgrade, write_answer,
  access_log,
}
use cternal.Api.Access.Logged.{IsHttp, access_log_lem}
use cternal.Samples.{floats, json, server, store}

abbrev outside : Outside
outside = record {
  file_status = λ path. 200;
  redirect_status = 307;
  upgrade_error = λ r. none;
  hijackable = true;
}

abbrev no_frontend : Frontend
no_frontend = record { quoted = λ s. s; files = none }

outside-IsHttp : (r : Request) → IsHttp outside r
outside-IsHttp r = record {
  files = λ path. omega arith;
  redirect = omega arith;
  refusal = λ code e. absurd (ground arith);
}

access_log_lem_example :
    let a = (serve_http floats json no_frontend server world store.sessions request).1 in
    let (calls, entry) =
      access_log server.config.user_header request (write_answer outside server request a) in
    ((status_sent calls ≡ some entry.status) ⊎ ((calls ≡ hijacks ∷ []) × (entry.status ≡ 200)))
    × ((response : Response)
        → a ≡ responds response
        → (status_sent calls ≡ some response.status)
          × (200 ≤ response.status)
          × (response.status ≤ 599))
access_log_lem_example =
    access_log_lem floats json no_frontend server world store.sessions request outside
      (outside-IsHttp request)

-- A connection that is taken over is logged with status 200.
upgraded_status :
    (access_log [] request (write_answer outside server request (upgrades (codes "a")))).1.status
    ≡ 200
unfolding access_log write_answer upgrade hijack http_error write_header get lookup bytes_eq
upgraded_status = refl
