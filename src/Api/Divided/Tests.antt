-- ===== src/Api/Divided/Tests.antt =====
-- Two teardowns of one session, whose calls interleave.
use cternal.Prelude.{◌+◌, ◌≡◌, refl, some, [], length}
use cternal.Prelude.Int.{pos, ◌≤ℤ◌}
use cternal.Dict.{lookup}
use cternal.Store.{new_store}
use cternal.Store.Registry
use cternal.Ttl.{new_manager}
use cternal.Ttl.Countdown
use cternal.Api.{new_server}
use cternal.Api.Create.{generate_id}
use cternal.Api.Divided.{
  Divided, registers, looks_up, goes_on, divided_step, IsFresh, Interleaves, begins, steps,
}
use cternal.Api.Divided.Gauge.{owed, divided_step_lem}
use cternal.Api.Tests.{world, request, asked}
use cternal.Samples.{floats, json, heap, server}

abbrev empty : Divided
empty = record {
  server =
      new_server server.config (new_store server.config.max_sessions) (new_manager (pos 100)) heap;
  teardowns = [];
}

abbrev one : Divided
one = divided_step floats json empty (registers world request asked (some 9))

abbrev looked : Divided
looked =
    divided_step floats json (divided_step floats json one (looks_up (generate_id world.random)))
      (looks_up (generate_id world.random))

abbrev torn : Divided
torn =
    divided_step floats json (divided_step floats json looked (goes_on 0 (pos 9)))
      (goes_on 1 (pos 9))

one-IsFresh : IsFresh floats json empty (registers world request asked (some 9))
unfolding new_server new_store lookup
one-IsFresh = refl

torn-Interleaves : Interleaves floats json server.config (pos 100) torn
torn-Interleaves =
    steps
      (steps
        (steps
          (steps (steps (begins heap) (registers world request asked (some 9)) one-IsFresh)
            (looks_up (generate_id world.random)) tt)
          (looks_up (generate_id world.random)) tt)
        (goes_on 0 (pos 9)) tt)
      (goes_on 1 (pos 9)) tt

divided_step_lem_example :
    Registry.IsSound torn.server.heap torn.server.store
    × Countdown.IsSound torn.server.ttl_mgr
    × (torn.server.active_sessions ≤ℤ pos (length torn.server.store.sessions + owed torn.teardowns))
    × (owed torn.teardowns ≡ 0
        → torn.server.active_sessions ≤ℤ pos (length torn.server.store.sessions))
divided_step_lem_example =
    divided_step_lem floats json server.config (pos 100) torn torn-Interleaves
