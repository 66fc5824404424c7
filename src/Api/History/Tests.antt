-- ===== src/Api/History/Tests.antt =====
-- Examples of what may happen to a server.
use cternal.Prelude.{ℕ, ◌≡◌, refl, true, none, some, [], bytes_eq}
use cternal.Prelude.Int.{pos, ◌≤ℤ◌}
use cternal.Dict.{lookup, insert}
use cternal.Store.{new_store}
use cternal.Ttl
use cternal.Ttl.{new_manager}
use cternal.Api.{Server, new_server}
use cternal.Api.Invariant.{IsSound}
use cternal.Session.{subscribe}
use cternal.Store
use cternal.Api.{notify}
use cternal.Api.Create.{make_session, generate_id, register}
use cternal.Api.Mux.{Frontend}
use cternal.Api.Tests.{world, later_world, request, asked}
use cternal.Api.History.{Reachable, put, requests, registers, subscribes, apply, started, then_step}
use cternal.Api.History.Soundness.{Reachable_lem}
use cternal.Samples.{floats, json, heap, settings}

abbrev fresh_server : Server
fresh_server = new_server settings (new_store settings.max_sessions) (new_manager (pos 10)) heap

abbrev front : Frontend
front = record { quoted = λ s. s; files = none }

-- A session is registered and subscribed to, and a second one is asked for.
abbrev busy_server : Server
busy_server =
    apply floats json
      (apply floats json (apply floats json fresh_server (registers world request asked (some 9)))
        (subscribes 0))
      (requests front later_world [] request)

busy_server-Reachable : Reachable floats json settings (pos 10) busy_server
unfolding new_server new_store lookup apply register put make_session subscribe Store.create notify
    insert generate_id bytes_eq
busy_server-Reachable =
    then_step
      (then_step (then_step (started heap) (registers world request asked (some 9)) refl)
        (subscribes 0) tt)
      (requests front later_world [] request) refl

Reachable_lem_example :
    IsSound busy_server
    × (pos 1 ≤ℤ busy_server.store.max_sessions
        → busy_server.active_sessions ≤ℤ busy_server.store.max_sessions)
    × ((t u : ℕ)
        → Ttl.was_pending (busy_server.ttl_mgr.clocks t).phase ≡ true
        → Ttl.was_pending (busy_server.ttl_mgr.clocks u).phase ≡ true
        → (busy_server.ttl_mgr.clocks t).session_id ≡ (busy_server.ttl_mgr.clocks u).session_id
        → t ≡ u)
Reachable_lem_example =
    Reachable_lem floats json settings (pos 10) busy_server busy_server-Reachable
