-- ===== src/Api/Divided/Gauge.antt =====
-- What interleaved teardowns and registrations keep.
use mathlib.Core.Path.{subst}
use cternal.Prelude.{
  ℕ, zero, suc, ◌+◌, ◌≡◌, refl, ap, arith, inl, inr, Option, none, List, [], ◌∷◌, Bytes, length,
}
use cternal.Prelude.Int.{ℤ, pos, negsuc, ◌+ℤ◌, ◌≤ℤ◌}
use cternal.Dict.{Dict, lookup, length-insert, length-delete}
use cternal.Floats.{Floats}
use cternal.Recorder.Cast.{Json}
use cternal.Store
use cternal.Store.{ok, err, new_store}
use cternal.Store.Registry
use cternal.Ttl.Countdown
use cternal.Api.{Config, Server, Request, new_server, notify}
use cternal.Api.Invariant.{get-cases, Made, insert-Made, delete-Made, suc-Made, fresh-Keyed}
use cternal.Api.Teardown.Ended.{close_stream_lem, count_end_lem, auto_export_lem}
use cternal.Api.Create.{World, CreateSessionRequest, generate_id, make_session, register}
use cternal.Api.Create.Created.{lodged, register-full, register-room, own_id}
use cternal.Api.Divided.{
  Stage, found, timer_removed, stream_closed, unregistered, counted, told, exported, Teardown,
  Divided, DividedStep, registers, starts_ttl, cancels_ttl, looks_up, goes_on, advance, go_on,
  divided_step, IsFresh, Interleaves, begins, steps,
}

-- The teardowns that have taken their session from the registry and not from the gauge.
abbrev pub owed_by : Stage → ℕ
owed_by unregistered = 1
owed_by stage = 0

abbrev pub owed : List Teardown → ℕ
owed [] = 0
owed (t ∷ ts) = owed_by t.stage + owed ts

-- The gauge is not above the registry with so many more.
pub record IsWithin (s : Server) (more : ℕ) : Type 0 where
  pub registry : Registry.IsSound s.heap s.store
  pub known : Made s.made s.store.sessions
  pub countdown : Countdown.IsSound s.ttl_mgr
  pub gauge : s.active_sessions ≤ℤ pos (length s.store.sessions + more)

-- The parts that a call may leave alone.
IsWithin-keeps :
    (s s' : Server) (more : ℕ)
    → s'.heap ≡ s.heap
    → s'.store ≡ s.store
    → s'.made ≡ s.made
    → s'.active_sessions ≡ s.active_sessions
    → Countdown.IsSound s'.ttl_mgr
    → IsWithin s more
    → IsWithin s' more
IsWithin-keeps s s' more h t m a c v = record {
  registry = rw (h, t) v.registry;
  known = rw (t, m) v.known;
  countdown = c;
  gauge = rw (t, a) v.gauge;
}

unregister-IsWithin :
    (s : Server) (id : Bytes) (more : ℕ)
    → IsWithin s more
    → IsWithin (record s { store = Store.remove s.store id }) (suc more)
unfolding Store.remove
unregister-IsWithin s id more v = record {
  registry = unfold Store.remove in Registry.remove-IsSound s.heap s.store id v.registry;
  known = delete-Made s.made id s.store.sessions v.known;
  countdown = v.countdown;
  gauge = ground (arith, v.gauge, length-delete id s.store.sessions v.registry.distinct);
}

less : (a : ℤ) (n more : ℕ) → a ≤ℤ pos (n + (1 + more)) → a +ℤ negsuc 0 ≤ℤ pos (n + (0 + more))
unfolding ◌+ℤ◌
less a n more h = ground (arith, h)

more_by_one : (a : ℤ) (n more : ℕ) → a ≤ℤ pos (n + more) → a +ℤ pos 1 ≤ℤ pos (n + 1 + more)
unfolding ◌+ℤ◌
more_by_one a n more h = ground (arith, h)

module _ (fl : Floats) (json : Json fl) where
  -- A call of a teardown, where `rest` are the others' debts.
  advance-IsWithin :
      (s : Server) (p : ℕ) (now : ℤ) (stage : Stage) (rest : ℕ)
      → IsWithin s (owed_by stage + rest)
      → IsWithin
          (advance fl json s p now stage).0
          (owed_by (advance fl json s p now stage).1 + rest)
  unfolding advance
  advance-IsWithin s p now found rest v =
      IsWithin-keeps s _ (0 + rest) refl refl refl refl
        (Countdown.remove_lem s.ttl_mgr (s.heap p).id v.countdown).0 v
  advance-IsWithin s p now timer_removed rest v =
      rw (close_stream_lem s (s.heap p))
        (IsWithin-keeps s _ (0 + rest) refl refl refl refl v.countdown v)
  advance-IsWithin s p now stream_closed rest v =
      subst (IsWithin (record s { store = Store.remove s.store (s.heap p).id })) (omega arith)
        (unregister-IsWithin s (s.heap p).id (0 + rest) v)
  advance-IsWithin s p now unregistered rest v = rw (count_end_lem s (s.heap p) now) (record {
    registry = v.registry;
    known = v.known;
    countdown = v.countdown;
    gauge = less s.active_sessions (length s.store.sessions) rest v.gauge;
  })
  advance-IsWithin s p now counted rest v =
      unfold notify in IsWithin-keeps s _ (0 + rest) refl refl refl refl v.countdown v
  advance-IsWithin s p now told rest v =
      rw (auto_export_lem fl json s (s.heap p))
        (IsWithin-keeps s _ (0 + rest) refl refl refl refl v.countdown v)
  advance-IsWithin s p now exported rest v = v

  -- `before` are the debts of the teardowns in front.
  go_on-IsWithin :
      (s : Server) (ts : List Teardown) (i : ℕ) (now : ℤ) (before : ℕ)
      → IsWithin s (owed ts + before)
      → IsWithin (go_on fl json s ts i now).0 (owed (go_on fl json s ts i now).1 + before)
  unfolding go_on
  go_on-IsWithin s [] i now before v = v
  go_on-IsWithin s (t ∷ ts) zero now before v =
      subst (IsWithin (advance fl json s t.session now t.stage).0) (omega arith) (
        advance-IsWithin s t.session now t.stage (owed ts + before)
          (subst (IsWithin s) (omega arith) v))
  go_on-IsWithin s (t ∷ ts) (suc i) now before v =
      subst (IsWithin (go_on fl json s ts i now).0) (omega arith)
        (go_on-IsWithin s ts i now (owed_by t.stage + before) (subst (IsWithin s) (omega arith) v))

  registers-IsWithin :
      (s : Server) (w : World) (r : Request) (req : CreateSessionRequest) (strm : Option ℕ)
      (more : ℕ)
      → lookup (generate_id w.random) s.store.sessions ≡ none
      → IsWithin s more
      → IsWithin (register s w r req strm).0 more
  unfolding lodged
  registers-IsWithin s w r req strm more free v =
      let l = lodged s w r req strm in
      let registry : Registry.IsSound l.heap s.store = record {
        distinct = v.registry.distinct;
        keyed =
            fresh-Keyed s.heap s.made (make_session s w r req strm) s.store.sessions v.known
              v.registry.keyed;
        capped = v.registry.capped;
      } in
      let known = suc-Made s.made s.store.sessions v.known in
      elim (Registry.create_lem l.heap s.store s.made) [
        | inl (e, capped, reached) ↦ rw (register-full s w r req strm e) (record {
          registry = registry;
          known = known;
          countdown = v.countdown;
          gauge = v.gauge;
        })
        | inr (store, e, where_found) ↦
            let id = (l.heap s.made).id in
            let grown =
              ap (λ (x : Store.Store). x.sessions)
                (Registry.create-eq l.heap s.store s.made store e) in
            rw (register-room s w r req strm store e) (record {
              registry = Registry.create-IsSound l.heap s.store s.made store registry e;
              known =
                  subst (Made (suc s.made)) grown
                    (insert-Made (suc s.made) id s.made s.store.sessions (omega arith) known);
              countdown = v.countdown;
              gauge =
                  subst (λ (x : Dict ℕ). s.active_sessions +ℤ pos 1 ≤ℤ pos (length x + more)) grown
                    (ground (
                      arith,
                      more_by_one s.active_sessions (length s.store.sessions) more v.gauge,
                      length-insert id s.made s.store.sessions,
                      own_id s w r req strm,
                      free,
                    ));
            })
      ]

  divided_step-IsWithin :
      (d : Divided) (step : DividedStep)
      → IsFresh fl json d step
      → IsWithin d.server (owed d.teardowns)
      → let d' = divided_step fl json d step in IsWithin d'.server (owed d'.teardowns)
  unfolding divided_step
  divided_step-IsWithin d (registers w r req strm) free v =
      registers-IsWithin d.server w r req strm (owed d.teardowns) free v
  divided_step-IsWithin d (starts_ttl id now) free v =
      IsWithin-keeps d.server _ (owed d.teardowns) refl refl refl refl
        (Countdown.start_ttl-IsSound d.server.ttl_mgr id now v.countdown) v
  divided_step-IsWithin d (cancels_ttl id) free v =
      IsWithin-keeps d.server _ (owed d.teardowns) refl refl refl refl
        (Countdown.cancel_ttl-IsSound d.server.ttl_mgr id v.countdown) v
  divided_step-IsWithin d (looks_up id) free v = elim (get-cases d.server.store id) [
    | inl e ↦ rw (divided_step, e) v
    | inr (p, e) ↦ rw (divided_step, e) (subst (IsWithin d.server) (omega arith) v)
  ]
  divided_step-IsWithin d (goes_on i now) free v =
      subst (IsWithin (go_on fl json d.server d.teardowns i now).0) (omega arith)
        (go_on-IsWithin d.server d.teardowns i now 0 (subst (IsWithin d.server) (omega arith) v))

  Interleaves-IsWithin :
      (c : Config) (ttl : ℤ) (d : Divided)
      → Interleaves fl json c ttl d
      → IsWithin d.server (owed d.teardowns)
  unfolding new_server new_store
  Interleaves-IsWithin c ttl _ (begins heap) = record {
    registry = record { distinct = tt; keyed = tt; capped = λ h. ground arith };
    known = tt;
    countdown = Countdown.new_manager-IsSound ttl;
    gauge = omega arith;
  }
  Interleaves-IsWithin c ttl _ (steps {d = d} r step free) =
      divided_step-IsWithin d step free (Interleaves-IsWithin c ttl d r)

  -- However registrations, countdowns that start or are cancelled, and the single calls of any number of
  -- teardowns interleave, two teardowns of one session among them, where new ids are not in use already: no id
  -- stands twice in the registry and each session stands under its own, a positive limit is not
  -- exceeded, and a session has at most one countdown running; the gauge of active sessions is at most the
  -- registry's size and the number of teardowns between the removal from the registry and the count, so with
  -- none under way there it is at most the registry's size.
  pub divided_step_lem :
      (c : Config) (ttl : ℤ) (d : Divided)
      → Interleaves fl json c ttl d
      → let s = d.server in
        Registry.IsSound s.heap s.store
        × Countdown.IsSound s.ttl_mgr
        × (s.active_sessions ≤ℤ pos (length s.store.sessions + owed d.teardowns))
        × (owed d.teardowns ≡ 0 → s.active_sessions ≤ℤ pos (length s.store.sessions))
  divided_step_lem c ttl d r =
      let v = Interleaves-IsWithin c ttl d r in
      (v.registry, v.countdown, v.gauge, λ none_owed. ground (arith, v.gauge, none_owed))
