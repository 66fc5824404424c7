-- ===== src/Api/Tests.antt =====
-- Examples of requests, of their races, and of how a session ends.
use mathlib.Core.List.Perm
use cternal.Prelude.{
  ◌≡◌, ◌≤◌, refl, arith, false, ◌⊎◌, none, some, [], ◌∷◌, ◌++◌, Bytes, codes, bytes_eq,
  bytes_eq_iff, ◌==◌, if◌then◌else◌,
}
use cternal.Prelude.Int.{pos, negsuc, ◌+ℤ◌, ◌≤ℤ◌}
use cternal.Dict.{lookup}
use cternal.Runtime.{gives}
use cternal.Session.{mode_attach}
use cternal.Store
use cternal.Store.{ok, err, session_not_found}
use cternal.Ttl.{Manager, fired, fire}
use cternal.Ttl.Countdown
use cternal.Api.{Request, method_delete, method_post, closes}
use cternal.Api.Invariant.{IsSound}
use cternal.Api.Teardown.{evict, evict_session, expire}
use cternal.Api.Teardown.Ended.{closing, end_posts, evict_session_lem, expire_lem, evict_twice}
use cternal.Api.Create.{
  CreateSessionRequest, World, generate_id, make_session, register, create_session,
}
use cternal.Api.Create.Created.{dropped, start_posts, register_lem}
use cternal.Api.Create.Outcome.{Outcome}
use cternal.Api.Create.Race.{AttachUnique, create_session-IsSound}
use cternal.Samples.{floats, json, attached, store, manager, server}

pub server-IsSound : IsSound server
unfolding lookup bytes_eq
server-IsSound = record {
  registry = record {
    distinct = (refl, (refl, tt));
    keyed = (refl, (refl, tt));
    capped = λ h. ground arith;
  };
  known = (omega arith, (omega arith, tt));
  countdown = record { known = λ id t h. ground arith; tracked = λ t h. ground arith };
  counted = refl;
}

abbrev pub asked : CreateSessionRequest
asked = record {
  container_id = codes "c2";
  container_name = codes "db";
  mode = mode_attach;
  shell = [];
  since = [];
  cols = 80;
  rows = 24;
}

abbrev pub world : World
world = record {
  now = pos 200;
  random = 18 ∷ 171 ∷ [];
  runtime = record {
    list_containers = λ f. gives [];
    exec = λ id opts. gives 8;
    attach = λ id. gives 9;
  };
  times = record { rfc3339 = λ t. codes "2006-01-02"; compact = λ t. codes "20060102" };
  decode = λ body. gives asked;
}

abbrev pub later_world : World
later_world = record world { random = 18 ∷ 172 ∷ [] }

abbrev pub request : Request
request = record {
  method = method_post;
  path = codes "/term/api/v1/sessions";
  host = codes "localhost";
  tls = false;
  header = λ name. [];
  query = λ name. [];
  body = [];
}

abbrev deletion : Request
deletion = record request { method = method_delete; path = codes "/term/api/v1/sessions/a" }

generate_id_world : generate_id world.random ≡ codes "12ab"
unfolding generate_id
generate_id_world = refl

world_free : lookup (generate_id world.random) store.sessions ≡ none
unfolding generate_id lookup bytes_eq
world_free = refl

server-AttachUnique : AttachUnique server
unfolding Store.get lookup bytes_eq
server-AttachUnique i j p q gi gj mi mj c = ground (
  arith,
  bytes_eq_iff (codes "a") i,
  bytes_eq_iff (codes "a") j,
  bytes_eq_iff (codes "b") i,
  bytes_eq_iff (codes "b") j,
)

create_session-IsSound_example :
    let s' = (create_session server world store.sessions request).0 in IsSound s' × AttachUnique s'
create_session-IsSound_example =
    create_session-IsSound server world store.sessions request server-IsSound world_free
      (Perm.refl _) server-AttachUnique

register_lem_example :
    let sess = make_session server world request asked (some 9) in
    let (s', answer) = register server world request asked (some 9) in
    IsSound s'
    × (((answer.status ≡ 503)
          × (1 ≤ 0)
          × (pos 0 ≤ℤ pos 2)
          × (s'.store ≡ store)
          × (s'.active_sessions ≡ pos 2)
          × (s'.posts ≡ [])
          × (s'.calls ≡ closes 9 ∷ []))
        ⊎ ((answer.status ≡ 201)
            × (s'.heap 2 ≡ sess)
            × ((j : Bytes)
                → Store.get s'.store j
                  ≡ (if bytes_eq (generate_id world.random) j then ok 2 else Store.get store j))
            × (s'.active_sessions ≡ pos 2 +ℤ pos 1)
            × (s'.posts ≡ start_posts server.config.webhook_urls sess)
            × (s'.calls ≡ [])))
unfolding dropped
register_lem_example = register_lem server world request asked (some 9) server-IsSound world_free

evict_twice_example :
    let s' = evict floats json (evict floats json server 0 (pos 300)) 0 (pos 301) in
    (s'.active_sessions ≡ pos 2 +ℤ negsuc 0 +ℤ negsuc 0)
    × (s'.posts
        ≡ end_posts server.config.webhook_urls attached
          ++ end_posts server.config.webhook_urls attached)
    × (s'.calls ≡ closing attached ++ closing attached)
evict_twice_example = evict_twice floats json server 0 (pos 300) (pos 301)

evict_session_lem_example :
    let s' = evict_session floats json server (codes "a") (pos 300) in
    IsSound s'
    × ((j : Bytes)
        → Store.get s'.store j
          ≡ (if bytes_eq (codes "a") j then err session_not_found else Store.get store j))
    × Countdown.Idle s'.ttl_mgr (codes "a")
unfolding Store.get lookup bytes_eq
evict_session_lem_example =
    evict_session_lem floats json server (codes "a") 0 (pos 300) server-IsSound refl

abbrev after_fire : Manager
after_fire = record manager {
  clocks = λ t.
      if 0 == t
      then record { session_id = codes "b"; due = pos 110; phase = fired }
      else manager.clocks t;
}

expire_lem_example :
    let s' = expire floats json server 0 (pos 300) in
    IsSound s'
    × ((j : Bytes)
        → Store.get s'.store j
          ≡ (if bytes_eq (codes "b") j then err session_not_found else Store.get store j))
unfolding fire
expire_lem_example =
    expire_lem floats json server 0 (pos 300) (codes "b") after_fire server-IsSound refl
