-- ===== src/Api/Mux/Tests.antt =====
-- Examples of requests and where they get to.
use cternal.Prelude.{◌≡◌, refl, none, codes, bytes_eq}
use cternal.Std.{strip_prefix, has_prefix, contains}
use cternal.Api.Tests.{world, request}
use cternal.Api.Mux.{
  to_sessions, to_static, moved, no_route, is_segment, route_below, route, upgrades, serve_http,
}
use cternal.Samples.{floats, json, server, store}

route-sessions : route (codes "/term") (codes "/term/api/v1/sessions") ≡ to_sessions
unfolding route route_below strip_prefix bytes_eq
route-sessions = refl

route-page : route (codes "/term") (codes "/term/ws/a/b") ≡ to_static
unfolding route route_below strip_prefix has_prefix is_segment contains bytes_eq
route-page = refl

route-base : route (codes "/term") (codes "/term") ≡ moved
unfolding route route_below strip_prefix
route-base = refl

route_elsewhere : route (codes "/term") (codes "/other") ≡ no_route
unfolding route strip_prefix
route_elsewhere = refl

upgrades_a :
    (serve_http floats json
      (record { quoted = λ s. s; files = none })
      server
      world
      store.sessions
      (record request { path = codes "/term/ws/a" })).1
    ≡ upgrades (codes "a")
unfolding serve_http route route_below strip_prefix has_prefix is_segment contains bytes_eq
upgrades_a = refl
