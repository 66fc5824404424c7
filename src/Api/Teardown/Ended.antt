-- ===== src/Api/Teardown/Ended.antt =====
-- What a session's end does, and what it leaves.
use cternal.Prelude.{
  ℕ, append-nil, ◌≡◌, refl, sym, arith, Bool-cases, Option-cases, inl, inr, none, some, List, [],
  ◌∷◌, ◌++◌, map, Bytes, codes, bytes_eq, bytes_eq_iff, if◌then◌else◌, length,
}
use cternal.Prelude.Int.{ℤ, pos, negsuc, sub_ℕ, ◌+ℤ◌}
use cternal.Floats.{Floats}
use cternal.Recorder.{since}
use cternal.Recorder.Cast.{Json}
use cternal.Dict.{lookup, length-delete}
use cternal.Session.{Session}
use cternal.Store
use cternal.Store.{ok, err, session_not_found}
use cternal.Store.Registry
use cternal.Ttl
use cternal.Ttl.Countdown
use cternal.Ttl.Firing
use cternal.Webhook.{Post}
use cternal.Api.{Server, StreamCall, closes, recorded, is_zero, notify}
use cternal.Api.Invariant.{IsSound, delete-Made, get-lookup, get-cases, lookup-Keyed}
use cternal.Api.Teardown.{
  cast_size, close_stream, count_end, marshal_cast, auto_export, evict, evict_session, expire,
}

-- The call that a teardown makes of the session's stream, and the posts that it begins.
pub closing : Session → List StreamCall
closing sess = elim sess.stream [ none ↦ [] | some st ↦ closes st ∷ [] ]

pub end_posts : List Bytes → Session → List Post
end_posts urls sess =
    map
      (λ u. record {
        url = u;
        payload = record {
          event = codes "session.end";
          session_id = sess.id;
          container = sess.container_id;
          mode = sess.mode;
        };
      })
      urls

pub lasted : Session → ℤ → List ℤ
lasted sess now = if is_zero sess.created_at then [] else since now sess.created_at ∷ []

pub close_stream_lem :
    (s : Server) (sess : Session)
    → close_stream s sess ≡ record s { calls = s.calls ++ closing sess }
unfolding close_stream closing
close_stream_lem s sess = elim (Option-cases sess.stream) [
  | inl e ↦ rw e (λ i. record s { calls = sym (append-nil s.calls) i })
  | inr (st, e) ↦ rw e refl
]

pub count_end_lem :
    (s : Server) (sess : Session) (now : ℤ)
    → count_end s sess now ≡ record s {
      active_sessions = s.active_sessions +ℤ negsuc 0;
      durations = s.durations ++ lasted sess now;
    }
unfolding count_end lasted
count_end_lem s sess now = elim (Bool-cases (is_zero sess.created_at)) [
  | inl e ↦ rw e (λ i. record s {
    active_sessions = s.active_sessions +ℤ negsuc 0;
    durations = sym (append-nil s.durations) i;
  })
  | inr e ↦ rw e refl
]

forgotten :
    (s : Server) (id : Bytes)
    → IsSound s
    → Countdown.Idle s.ttl_mgr id
    → IsSound (record s { ttl_mgr = Ttl.forget s.ttl_mgr id })
forgotten s id v idle = record {
  registry = v.registry;
  known = v.known;
  countdown = Countdown.drop-IsSound s.ttl_mgr id v.countdown idle;
  counted = v.counted;
}

counted_down : (a : ℤ) (n : ℕ) → a ≡ pos n → a +ℤ negsuc 0 ≡ sub_ℕ n 1
unfolding ◌+ℤ◌
counted_down a n e = ground arith

module _ (fl : Floats) (json : Json fl) where
  -- What an export sends: the recording, with the size in its first resize event, if an export URL is
  -- configured and it can be encoded.
  pub exported : Bytes → Session → List Bytes
  exported url sess =
      let size = cast_size (recorded sess.recorder) in
      if bytes_eq url []
      then []
      else elim (marshal_cast fl json size.0 size.1 (recorded sess.recorder)) [
        | none ↦ []
        | some content ↦ content ∷ []
      ]

  pub auto_export_lem :
      (s : Server) (sess : Session)
      → auto_export fl json s sess
        ≡ record s { exports = s.exports ++ exported s.config.export_url sess }
  unfolding auto_export exported
  auto_export_lem s sess =
      let size = cast_size (recorded sess.recorder) in
      let same : s ≡ record s { exports = s.exports ++ [] } =
        λ i. record s { exports = sym (append-nil s.exports) i } in
      elim (Bool-cases (bytes_eq s.config.export_url [])) [
        | inl off ↦ rw off same
        | inr on ↦
            elim (Option-cases (marshal_cast fl json size.0 size.1 (recorded sess.recorder))) [
              | inl e ↦ rw (on, e) same
              | inr (content, e) ↦ rw (on, e) refl
            ]
      ]

  -- A teardown, on every branch: the session's countdown is removed and its entry in the registry; its
  -- stream is closed if it has one; one session less is counted, and its duration noted if its time of
  -- creation is known; every webhook is told of the end; and the recording is exported if an export
  -- URL is configured and it can be encoded. Nothing else is changed.
  pub evict_lem :
      (s : Server) (p : ℕ) (now : ℤ)
      → let sess = s.heap p in
        evict fl json s p now ≡ record s {
          ttl_mgr = Ttl.remove s.ttl_mgr sess.id;
          store = Store.remove s.store sess.id;
          calls = s.calls ++ closing sess;
          active_sessions = s.active_sessions +ℤ negsuc 0;
          durations = s.durations ++ lasted sess now;
          posts = s.posts ++ end_posts s.config.webhook_urls sess;
          exports = s.exports ++ exported s.config.export_url sess;
        }
  unfolding evict notify end_posts
  evict_lem s p now =
      let sess = s.heap p in
      rw (
        auto_export_lem _ sess,
        count_end_lem _ sess now,
        close_stream_lem (record s { ttl_mgr = Ttl.remove s.ttl_mgr sess.id }) sess,
      )

  evict-IsSound :
      (s : Server) (p : ℕ) (now : ℤ)
      → IsSound s
      → lookup (s.heap p).id s.store.sessions ≡ some p
      → IsSound (evict fl json s p now)
  evict-IsSound s p now v e =
      let id = (s.heap p).id in
      rw (evict_lem s p now) (record {
        registry = Registry.remove-IsSound s.heap s.store id v.registry;
        known = unfold Store.remove in delete-Made s.made id s.store.sessions v.known;
        countdown = (Countdown.remove_lem s.ttl_mgr id v.countdown).0;
        counted =
            unfold Store.remove in
            ground (
              arith,
              counted_down s.active_sessions (length s.store.sessions) v.counted,
              length-delete id s.store.sessions v.registry.distinct,
            );
      })

  -- A session that is found is torn down by `EvictSession`: it is not found afterwards, every other
  -- session is found as before, no countdown of it runs, and the server stays sound.
  pub evict_session_lem :
      (s : Server) (id : Bytes) (p : ℕ) (now : ℤ)
      → IsSound s
      → Store.get s.store id ≡ ok p
      → let s' = evict_session fl json s id now in
        IsSound s'
        × ((j : Bytes)
            → Store.get s'.store j
              ≡ (if bytes_eq id j then err session_not_found else Store.get s.store j))
        × Countdown.Idle s'.ttl_mgr id
  unfolding evict_session
  evict_session_lem s id p now v e =
      let found = get-lookup s.store id p e in
      let own : (s.heap p).id ≡ id =
        lookup-Keyed s.heap id p s.store.sessions v.registry.keyed found in
      rw (evict_session, e)
        (
          evict-IsSound s p now v (rw own found),
          rw (evict_lem s p now, own) (λ j. Registry.get-remove s.store id j),
          rw (evict_lem s p now, own) (Countdown.remove_lem s.ttl_mgr id v.countdown).1,
        )

  -- An id that is not found is not torn down again.
  pub evict_session_gone :
      (s : Server) (id : Bytes) (now : ℤ)
      → Store.get s.store id ≡ err session_not_found
      → evict_session fl json s id now ≡ s
  unfolding evict_session
  evict_session_gone s id now e = rw (evict_session, e)

  -- When a countdown runs out its session is torn down, if it is still there: it is not found
  -- afterwards, every other session is found as before, and the server stays sound.
  pub expire_lem :
      (s : Server) (t : ℕ) (now : ℤ) (id : Bytes) (m : Ttl.Manager)
      → IsSound s
      → Ttl.fire s.ttl_mgr t now ≡ some (id, m)
      → let s' = expire fl json s t now in
        IsSound s'
        × ((j : Bytes)
            → Store.get s'.store j
              ≡ (if bytes_eq id j then err session_not_found else Store.get s.store j))
  unfolding expire
  expire_lem s t now id m v e =
      let (sound, idle) = Firing.fire-IsSound s.ttl_mgr m t now id v.countdown e in
      let s0 : Server = record s { ttl_mgr = m } in
      let v0 : IsSound s0 = record {
        registry = v.registry;
        known = v.known;
        countdown = sound;
        counted = v.counted;
      } in
      rw (expire, e)
        (elim (get-cases s.store id) [
          | inl gone ↦
              rw (evict_session_gone s0 id now gone)
                (forgotten s0 id v0 idle, λ j. ground (arith, bytes_eq_iff id j))
          | inr (p, here) ↦
              let (v1, found, idle1) = evict_session_lem s0 id p now v0 here in
              (forgotten (evict_session fl json s0 id now) id v1 idle1, found)
        ])

  -- The end of a countdown ends no handler of a connection.
  pub expire-connections :
      (s : Server) (t : ℕ) (now : ℤ) (id : Bytes) (m : Ttl.Manager)
      → Ttl.fire s.ttl_mgr t now ≡ some (id, m)
      → (expire fl json s t now).connections ≡ s.connections
  unfolding expire evict_session
  expire-connections s t now id m e = elim (get-cases s.store id) [
    | inl gone ↦ rw (expire, e, evict_session, gone)
    | inr (p, here) ↦
        rw (expire, e, evict_session, here, evict_lem (record s { ttl_mgr = m }) p now)
  ]

  -- Two requests that have both found a session before either tears it down, tear it down twice: two
  -- sessions less are counted, each webhook is told twice, and the stream is closed twice.
  pub evict_twice :
      (s : Server) (p : ℕ) (now later : ℤ)
      → let sess = s.heap p in
        let s' = evict fl json (evict fl json s p now) p later in
        (s'.active_sessions ≡ s.active_sessions +ℤ negsuc 0 +ℤ negsuc 0)
        × (s'.posts
            ≡ (s.posts ++ end_posts s.config.webhook_urls sess)
              ++ end_posts s.config.webhook_urls sess)
        × (s'.calls ≡ (s.calls ++ closing sess) ++ closing sess)
  evict_twice s p now later =
      rw (evict_lem (evict fl json s p now) p later, evict_lem s p now) (refl, refl, refl)
