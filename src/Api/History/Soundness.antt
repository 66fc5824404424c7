-- ===== src/Api/History/Soundness.antt =====
-- What holds of the server in every state that it may get to.
use mathlib.Core.Path.{subst}
use cternal.Prelude.{
  ℕ, ◌≡◌, refl, sym, arith, Bool, true, Bool-cases, Option-cases, inl, inr, [], ◌∷◌, ◌++◌, Bytes,
  codes, bytes_eq, bytes_eq_iff,
}
use cternal.Prelude.Int.{ℤ, pos, ◌≤ℤ◌}
use cternal.Prelude.{none}
use cternal.Dict.{Dict, lookup}
use cternal.Api.Mux.{Frontend, serve_http}
use cternal.Api.Mux.Cases.{serve_http-cases}
use cternal.Api.Create.{generate_id}
use cternal.Floats.{Floats}
use cternal.Recorder.Cast.{Json}
use cternal.Session.{Session, subscribe, unsubscribe, broadcast, pump_round}
use cternal.Store.{new_store}
use cternal.Ttl
use cternal.Ttl.{new_manager, fire}
use cternal.Ttl.Countdown
use cternal.Api.{Config, Server, Request, new_server, StreamCall}
use cternal.Api.Invariant.{IsSound, update-IsSound, get-cases}
use cternal.Api.Teardown.{expire}
use cternal.Api.Teardown.Ended.{evict_session_lem, expire_lem}
use cternal.Api.Create.{World}
use cternal.Api.Create.Created.{register_lem}
use cternal.Api.Socket.Lifecycle.{open_socket_lem, close_socket_lem}
use cternal.Recorder.{add}
use cternal.Api.Socket.{Wire, dispatch_message, note, open_socket}
use cternal.Api.History.{
  Step, registers, requests, expires, opens, closes, hears, pumps, subscribes, unsubscribes, put,
  apply, IsFresh, Reachable, started, then_step,
}

pump_round-id :
    (sess : Session) (content : Bytes) (now : ℤ) → (pump_round sess content now).id ≡ sess.id
unfolding pump_round broadcast
pump_round-id sess content now = refl

subscribe-id : (sess : Session) → (subscribe sess).1.id ≡ sess.id
unfolding subscribe
subscribe-id sess = refl

module _ (fl : Floats) (json : Json fl) where
  -- Whatever a server is started with, it is sound.
  new_server-IsSound :
      (c : Config) (ttl : ℤ) (heap : ℕ → Session)
      → IsSound (new_server c (new_store c.max_sessions) (new_manager ttl) heap)
  unfolding new_server new_store
  new_server-IsSound c ttl heap = record {
    registry = record { distinct = tt; keyed = tt; capped = λ h. ground arith };
    known = tt;
    countdown = Countdown.new_manager-IsSound ttl;
    counted = refl;
  }

  requests-IsSound :
      (s : Server) (front : Frontend) (w : World) (visited : Dict ℕ) (r : Request)
      → IsSound s
      → lookup (generate_id w.random) s.store.sessions ≡ none
      → IsSound (serve_http fl json front s w visited r).0
  requests-IsSound s front w visited r v free =
      elim (serve_http-cases s w visited r fl json front) [
        | inl same ↦ rw same v
        | inr (inl (req, strm, made)) ↦ rw made (register_lem s w r req strm v free).0
        | inr (inr (id, p, e, torn)) ↦ rw torn (evict_session_lem fl json s id p w.now v e).0
      ]

  expires-IsSound : (s : Server) (t : ℕ) (now : ℤ) → IsSound s → IsSound (expire fl json s t now)
  unfolding expire
  expires-IsSound s t now v = elim (Option-cases (fire s.ttl_mgr t now)) [
    | inl e ↦ rw (expire, e) v
    | inr ((id, m), e) ↦ (expire_lem fl json s t now id m v e).0
  ]

  opens-IsSound :
      (s : Server) (id : Bytes) (upgrades : Bool) (write_fails : ℕ → Bool)
      → IsSound s
      → IsSound (open_socket s id upgrades write_fails).0
  unfolding open_socket
  opens-IsSound s id upgrades write_fails v = elim (Bool-cases (bytes_eq id [])) [
    | inl unnamed ↦ rw (open_socket, unnamed) v
    | inr named ↦ elim (get-cases s.store id) [
      | inl e ↦ rw (open_socket, named, e) v
      | inr (p, e) ↦ elim (Bool-cases upgrades) [
        | inr not_up ↦ rw (open_socket, named, e, not_up) v
        | inl up ↦
            let (_, _, _, _, _, v') =
              open_socket_lem s id p write_fails v (ground (arith, bytes_eq_iff id [])) e in
            subst (λ u. IsSound (open_socket s id u write_fails).0) (sym up) v'
      ]
    ]
  ]

  note-IsSound :
      (s : Server) (p : ℕ) (typ content : Bytes) (now : ℤ) (call : ℕ → StreamCall)
      → IsSound s
      → IsSound (note s p typ content now call)
  unfolding note
  note-IsSound s p typ content now call v =
      let sess = s.heap p in
      let u =
        update-IsSound s p (record sess { recorder = add sess.recorder typ content now }) refl v in
      record {
        registry = u.registry;
        known = u.known;
        countdown = u.countdown;
        counted = u.counted;
      }

  hears-IsSound :
      (s : Server) (wire : Wire) (raw : Bytes) (p : ℕ) (now : ℤ)
      → IsSound s
      → IsSound (dispatch_message wire s raw p now)
  unfolding dispatch_message
  hears-IsSound s wire raw p now v =
      let met : (typ : Bytes)
          → IsSound (record s { ws_messages = s.ws_messages ++ ((s.heap p).mode, typ) ∷ [] }) =
        λ typ. record {
          registry = v.registry;
          known = v.known;
          countdown = v.countdown;
          counted = v.counted;
        } in
      elim (Option-cases (wire.decode_type raw)) [
        | inl bad ↦ rw (dispatch_message, bad) v
        | inr (typ, d) ↦ elim (Bool-cases (bytes_eq typ (codes "input"))) [
          | inl is_input ↦ elim (Option-cases (wire.decode_input raw)) [
            | inl bad ↦ rw (dispatch_message, d, is_input, bad) (met typ)
            | inr (content, c) ↦
                rw (dispatch_message, d, is_input, c) (note-IsSound _ p _ content now _ (met typ))
          ]
          | inr not_input ↦ elim (Bool-cases (bytes_eq typ (codes "resize"))) [
            | inl is_resize ↦ elim (Option-cases (wire.decode_resize raw)) [
              | inl bad ↦ rw (dispatch_message, d, not_input, is_resize, bad) (met typ)
              | inr ((cols, rows), c) ↦
                  rw (dispatch_message, d, not_input, is_resize, c)
                    (note-IsSound _ p _ _ now _ (met typ))
            ]
            | inr other ↦ rw (dispatch_message, d, not_input, other) (met typ)
          ]
        ]
      ]

  unsubscribes-IsSound :
      (s : Server) (p sub : ℕ) → IsSound s → IsSound (apply fl json s (unsubscribes p sub))
  unfolding apply put unsubscribe
  unsubscribes-IsSound s p sub v = elim (Bool-cases ((s.heap p).channels sub).done) [
    | inl shut ↦ rw (apply, shut) v
    | inr open_yet ↦ rw (apply, open_yet) (update-IsSound s p _ refl v)
  ]

  -- Each step keeps the server sound.
  pub apply-IsSound :
      (s : Server) (step : Step)
      → IsFresh fl json s step
      → IsSound s
      → IsSound (apply fl json s step)
  unfolding apply put
  apply-IsSound s (registers w r req strm) free v = (register_lem s w r req strm v free).0
  apply-IsSound s (requests front w visited r) free v = requests-IsSound s front w visited r v free
  apply-IsSound s (expires t now) free v = expires-IsSound s t now v
  apply-IsSound s (opens id upgrades write_fails) free v = opens-IsSound s id upgrades write_fails v
  apply-IsSound s (closes id p now) free v = let (_, _, _, v') = close_socket_lem s id p now v in v'
  apply-IsSound s (hears wire raw p now) free v = hears-IsSound s wire raw p now v
  apply-IsSound s (pumps p content now) free v =
      update-IsSound s p (pump_round (s.heap p) content now) (pump_round-id (s.heap p) content now)
        v
  apply-IsSound s (subscribes p) free v =
      update-IsSound s p (subscribe (s.heap p)).1 (subscribe-id (s.heap p)) v
  apply-IsSound s (unsubscribes p sub) free v = unsubscribes-IsSound s p sub v

  pub reach : (c : Config) (ttl : ℤ) (s : Server) → Reachable fl json c ttl s → IsSound s
  reach c ttl _ (started heap) = new_server-IsSound c ttl heap
  reach c ttl _ (then_step {s = s} r step free) = apply-IsSound s step free (reach c ttl s r)

  -- In every state that a server may get to, through any requests, connections, messages, output of the
  -- containers and countdowns, each of them whole before the next, where new ids are not in use already: no
  -- id stands twice in the registry and each session stands under its own, a positive limit of sessions is
  -- not exceeded, the gauge of active sessions counts the registry, and a session has at most one
  -- countdown running.
  pub Reachable_lem :
      (c : Config) (ttl : ℤ) (s : Server)
      → Reachable fl json c ttl s
      → IsSound s
        × (pos 1 ≤ℤ s.store.max_sessions → s.active_sessions ≤ℤ s.store.max_sessions)
        × ((t u : ℕ)
            → Ttl.was_pending (s.ttl_mgr.clocks t).phase ≡ true
            → Ttl.was_pending (s.ttl_mgr.clocks u).phase ≡ true
            → (s.ttl_mgr.clocks t).session_id ≡ (s.ttl_mgr.clocks u).session_id
            → t ≡ u)
  Reachable_lem c ttl s r =
      let v = reach c ttl s r in
      (
        v,
        λ h. rw v.counted (v.registry.capped h),
        λ t u pt pu e. ground (arith, v.countdown.tracked t pt, v.countdown.tracked u pu),
      )
