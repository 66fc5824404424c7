-- ===== src/Session/Tests.antt =====
-- Examples of subscriptions and the pump.
use cternal.Prelude.{◌≡◌, refl, arith, some, [], ◌∷◌, ◌++◌, codes, take, map}
use cternal.Prelude.Int.{pos}
use cternal.Session.{
  Session, ch_capacity, mode_attach, new_session, subscribe, broadcast, pump_loop,
}
use cternal.Session.Channels.{IsSound, subscribes, broadcasts, step, run, run-new_session-IsSound}
use cternal.Session.Pump.{pumped_event, texts, pump_loop_lem}
use cternal.Samples.{attached}

attached-IsSound : IsSound attached
attached-IsSound = record {
  distinct = (refl, tt);
  known = λ p m. (ground arith, refl);
  room = λ p. omega arith;
}

pump_loop_lem_example :
    let s' = pump_loop attached ((codes "x", pos 120) ∷ (10 ∷ [], pos 121) ∷ []) in
    (s'.recorder.events
      ≡ attached.recorder.events
        ++ map
            (pumped_event mode_attach (pos 100))
            ((codes "x", pos 120) ∷ (10 ∷ [], pos 121) ∷ []))
    × ((s'.channels 0).ch
        ≡ take ch_capacity
            ([] ++ texts mode_attach ((codes "x", pos 120) ∷ (10 ∷ [], pos 121) ∷ [])))
pump_loop_lem_example =
    pump_loop_lem ((codes "x", pos 120) ∷ (10 ∷ [], pos 121) ∷ []) attached 0 attached-IsSound refl

abbrev opened : Session
opened = (subscribe (new_session (codes "a") (codes "c1") mode_attach (some 7) (pos 100) [])).1

run-new_session-IsSound_example : IsSound (broadcast opened (codes "x"))
unfolding run step
run-new_session-IsSound_example =
    run-new_session-IsSound (codes "a") (codes "c1") mode_attach (some 7) (pos 100)
      (subscribes ∷ broadcasts (codes "x") ∷ []) (broadcast opened (codes "x")) refl
