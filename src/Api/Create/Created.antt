-- ===== src/Api/Create/Created.antt =====
-- What the registration of a session does.
use mathlib.Core.Path.{subst}
use cternal.Prelude.{
  ℕ, append-nil, suc, ◌+◌, ◌≡◌, refl, sym, ap, ◌∙◌, arith, Bool-cases, inl, inr, ◌⊎◌, Option, none,
  some, List, [], ◌∷◌, ◌++◌, map, Bytes, codes, bytes_eq, if◌then◌else◌, length,
}
use cternal.Prelude.Int.{ℤ, pos, ◌+ℤ◌, ◌≤ℤ◌}
use cternal.Dict.{Dict, lookup, length-insert}
use cternal.Session.{Session, mode_logs, active, disconnected}
use cternal.Store
use cternal.Store.{ok, err, session_not_found, max_sessions_reached}
use cternal.Store.Registry
use cternal.Webhook.{Post}
use cternal.Api.{
  Server, Request, StreamCall, closes, set_session, notify, write_error, write_json, session,
  build_session_response,
}
use cternal.Api.Invariant.{IsSound, Made, insert-Made, suc-Made, fresh-Keyed}
use cternal.Api.Create.{
  World, CreateSessionRequest, generate_id, make_session, drop_stream, register,
}

-- The session that a request makes: active, unless it is for logs.
pub make_session_lem :
    (s : Server) (w : World) (r : Request) (req : CreateSessionRequest) (strm : Option ℕ)
    → let sess = make_session s w r req strm in
      (sess.id ≡ generate_id w.random)
      × (sess.container_id ≡ req.container_id)
      × (sess.mode ≡ req.mode)
      × (sess.stream ≡ strm)
      × (sess.status ≡ (if bytes_eq req.mode mode_logs then disconnected else active))
unfolding make_session
make_session_lem s w r req strm = elim (Bool-cases (bytes_eq req.mode mode_logs)) [
  | inl logs ↦ rw (make_session, logs) (refl, refl, refl, refl, refl)
  | inr other ↦ rw (make_session, other) (refl, refl, refl, refl, refl)
]

-- The stream that a refused creation closes, and the posts of one that succeeds.
unfoldable pub dropped : Option ℕ → List StreamCall
dropped strm = elim strm [ none ↦ [] | some st ↦ closes st ∷ [] ]

pub start_posts : List Bytes → Session → List Post
start_posts urls sess =
    map
      (λ u. record {
        url = u;
        payload = record {
          event = codes "session.start";
          session_id = sess.id;
          container = sess.container_id;
          mode = sess.mode;
        };
      })
      urls

counted_up : (a : ℤ) (n : ℕ) → a ≡ pos n → a +ℤ pos 1 ≡ pos (n + 1)
unfolding ◌+ℤ◌
counted_up a n e = ground arith

drop_stream_lem :
    (s : Server) (strm : Option ℕ)
    → drop_stream s strm ≡ record s { calls = s.calls ++ dropped strm }
unfolding drop_stream dropped
drop_stream_lem s none = λ i. record s { calls = sym (append-nil s.calls) i }
drop_stream_lem s (some st) = refl

module _ (s : Server) (w : World) (r : Request) (req : CreateSessionRequest) (strm : Option ℕ) where
  -- The server with the session made, and not yet registered.
  unfoldable pub lodged : Server
  lodged = record s {
    heap = set_session s.heap s.made (make_session s w r req strm);
    made = suc s.made;
  }

  own_session : lodged.heap s.made ≡ make_session s w r req strm
  unfolding lodged
  own_session = ground arith

  lodged-IsSound : IsSound s → IsSound lodged
  unfolding lodged
  lodged-IsSound v = record {
    registry = record {
      distinct = v.registry.distinct;
      keyed =
          fresh-Keyed s.heap s.made (make_session s w r req strm) s.store.sessions v.known
            v.registry.keyed;
      capped = v.registry.capped;
    };
    known = suc-Made s.made s.store.sessions v.known;
    countdown = v.countdown;
    counted = v.counted;
  }

  pub register-full :
      Store.create lodged.heap s.store s.made ≡ err max_sessions_reached
      → register s w r req strm ≡ (
        record lodged { calls = s.calls ++ dropped strm },
        write_error 503 (codes "maximum number of sessions reached"),
      )
  unfolding register lodged
  register-full e = rw (register, e, drop_stream_lem)

  pub register-room :
      (store : Store.Store)
      → Store.create lodged.heap s.store s.made ≡ ok store
      → let sess = make_session s w r req strm in
        let s' = record lodged {
          store = store;
          active_sessions = s.active_sessions +ℤ pos 1;
          posts = s.posts ++ start_posts s.config.webhook_urls sess;
        } in
        register s w r req strm
        ≡ (s', write_json 201 (session (build_session_response w.times s' sess r)))
  unfolding register lodged start_posts notify
  register-room store e = rw (register, e)

  pub own_id : (lodged.heap s.made).id ≡ generate_id w.random
  own_id = ap (λ (x : Session). x.id) own_session ∙ (make_session_lem s w r req strm).0

  room-IsSound :
      (store : Store.Store)
      → IsSound s
      → lookup (generate_id w.random) s.store.sessions ≡ none
      → Store.create lodged.heap s.store s.made ≡ ok store
      → (posts : List Post)
      → IsSound (record lodged {
        store = store;
        active_sessions = s.active_sessions +ℤ pos 1;
        posts = posts;
      })
  unfolding lodged
  room-IsSound store v free e posts =
      let u = lodged-IsSound v in
      let id = (lodged.heap s.made).id in
      let eq = Registry.create-eq lodged.heap s.store s.made store e in
      let grown = ap (λ (x : Store.Store). x.sessions) eq in
      record {
        registry = Registry.create-IsSound lodged.heap s.store s.made store u.registry e;
        known =
            subst (Made (suc s.made)) grown
              (insert-Made (suc s.made) id s.made s.store.sessions (omega arith) u.known);
        countdown = v.countdown;
        counted =
            subst (λ (x : Dict ℕ). s.active_sessions +ℤ pos 1 ≡ pos (length x)) grown
              (ground (
                arith,
                counted_up s.active_sessions (length s.store.sessions) v.counted,
                length-insert id s.made s.store.sessions,
                own_id,
              ));
      }

  -- A creation, on both branches, for an id that is not taken. Where a positive limit is reached it
  -- answers 503, closes the stream that was opened, and registers, counts and announces nothing.
  -- Otherwise it answers 201, registers the new session under its id and no other, counts it and tells
  -- every webhook of its start. The server stays sound on both.
  pub register_lem :
      IsSound s
      → lookup (generate_id w.random) s.store.sessions ≡ none
      → let sess = make_session s w r req strm in
        let (s', answer) = register s w r req strm in
        IsSound s'
        × (((answer.status ≡ 503)
              × (pos 1 ≤ℤ s.store.max_sessions)
              × (s.store.max_sessions ≤ℤ pos (length s.store.sessions))
              × (s'.store ≡ s.store)
              × (s'.active_sessions ≡ s.active_sessions)
              × (s'.posts ≡ s.posts)
              × (s'.calls ≡ s.calls ++ dropped strm))
            ⊎ ((answer.status ≡ 201)
                × (s'.heap s.made ≡ sess)
                × ((j : Bytes)
                    → Store.get s'.store j ≡ (
                        if bytes_eq (generate_id w.random) j
                        then ok s.made
                        else Store.get s.store j))
                × (s'.active_sessions ≡ s.active_sessions +ℤ pos 1)
                × (s'.posts ≡ s.posts ++ start_posts s.config.webhook_urls sess)
                × (s'.calls ≡ s.calls)))
  unfolding lodged
  register_lem v free = elim (Registry.create_lem lodged.heap s.store s.made) [
    | inl (e, capped, reached) ↦ rw (register-full e) (
        unfold Store.len in
        (
          record {
            registry = (lodged-IsSound v).registry;
            known = (lodged-IsSound v).known;
            countdown = v.countdown;
            counted = v.counted;
          },
          inl (refl, capped, reached, refl, refl, refl, refl),
        ))
    | inr (store, e, found) ↦ rw (register-room store e) (
      room-IsSound store v free e _,
      inr (refl, own_session, λ j. rw (← own_id) (found j), refl, refl, refl),
    )
  ]

-- Whatever the branch, the heap gets the new session at its end.
pub register-heap :
    (s : Server) (w : World) (r : Request) (req : CreateSessionRequest) (strm : Option ℕ)
    → (register s w r req strm).0.heap ≡ set_session s.heap s.made (make_session s w r req strm)
unfolding lodged
register-heap s w r req strm =
    elim (Registry.create_lem (lodged s w r req strm).heap s.store s.made) [
      | inl (e, _, _) ↦ rw (register-full s w r req strm e)
      | inr (store, e, _) ↦ rw (register-room s w r req strm store e)
    ]

pub register-max :
    (s : Server) (w : World) (r : Request) (req : CreateSessionRequest) (strm : Option ℕ)
    → (register s w r req strm).0.store.max_sessions ≡ s.store.max_sessions
unfolding lodged
register-max s w r req strm =
    elim (Registry.create_lem (lodged s w r req strm).heap s.store s.made) [
      | inl (e, _, _) ↦ rw (register-full s w r req strm e)
      | inr (store, e, _) ↦ rw (register-room s w r req strm store e) (
          ap (λ (x : Store.Store). x.max_sessions)
            (sym (Registry.create-eq (lodged s w r req strm).heap s.store s.made store e)))
    ]
