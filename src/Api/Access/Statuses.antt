-- ===== src/Api/Access/Statuses.antt =====
-- The statuses of the REST handlers' responses.
use cternal.Prelude.{
  ℕ, ◌≤◌, ◌≡◌, arith, Bool, true, false, inl, inr, Option, Option-cases, codes, ◌++◌, length, drop,
  Bytes,
}
use cternal.Floats.{Floats}
use cternal.Dict.{Dict}
use cternal.Recorder.Cast.{Json}
use cternal.Runtime.{Runtime}
use cternal.Runtime.Docker.Calls.{Reply-cases}
use cternal.Store
use cternal.Store.{ok, err}
use cternal.Api.{Server, Request, Response, Body, cast, write_error}
use cternal.Api.Create.{
  World, CreateSessionRequest, Stream, opened, unknown_mode, refused, admit, reuse, connect,
  register, create_session,
}
use cternal.Api.Routes.{
  sessions_path, split_path, handle_config, handle_containers, handle_sessions, handle_cast,
  serve_session, handle_session,
}

abbrev pub is_cast : Body → Bool
is_cast (cast filename content) = true
is_cast _ = false

-- A status of a response that is final, and is the default one if the response is written with none.
pub record IsFinal (response : Response) : Type 0 where
  pub low : 200 ≤ response.status
  pub high : response.status ≤ 599
  pub plain : is_cast response.body ≡ true → response.status ≡ 200

pub handle_config-IsFinal : (s : Server) (r : Request) → IsFinal (handle_config s r)
unfolding handle_config
handle_config-IsFinal s r = ground arith

pub handle_containers-IsFinal : (rt : Runtime) (r : Request) → IsFinal (handle_containers rt r)
unfolding handle_containers
handle_containers-IsFinal rt r = ground arith

register-IsFinal :
    (s : Server) (w : World) (r : Request) (req : CreateSessionRequest) (strm : Option ℕ)
    → IsFinal (register s w r req strm).1
unfolding register
register-IsFinal s w r req strm = ground arith

create_session-IsFinal :
    (s : Server) (w : World) (visited : Dict ℕ) (r : Request)
    → IsFinal (create_session s w visited r).1
unfolding create_session
create_session-IsFinal s w visited r = elim (Reply-cases (admit w r)) [
  | inr (msg, e) ↦ rw (create_session, e) (ground arith)
  | inl (req, e) ↦ elim (Option-cases (reuse s visited req)) [
    | inr (p, u) ↦ rw (create_session, e, u) (ground arith)
    | inl none_yet ↦ rw (create_session, e, none_yet) (connected req (connect w.runtime req))
  ]
]
  where
    connected :
        (req : CreateSessionRequest) (c : Stream)
        → IsFinal
            (elim c as (λ _. Server × Response) [
              | unknown_mode ↦ (s, write_error 400 (codes "unknown mode: " ++ req.mode))
              | refused e ↦ (s, write_error 500 (codes "failed to connect: " ++ e))
              | opened strm ↦ register s w r req strm
            ]).1
    connected req unknown_mode = ground arith
    connected req (refused e) = ground arith
    connected req (opened strm) = register-IsFinal s w r req strm

pub handle_sessions-IsFinal :
    (s : Server) (w : World) (visited : Dict ℕ) (r : Request)
    → IsFinal (handle_sessions s w visited r).1
unfolding handle_sessions
handle_sessions-IsFinal s w visited r = ground (arith, create_session-IsFinal s w visited r)

module _ (fl : Floats) (json : Json fl) where
  handle_cast-IsFinal : (times : _) (sess : _) → IsFinal (handle_cast fl json times sess)
  unfolding handle_cast
  handle_cast-IsFinal times sess = ground arith

  serve_session-IsFinal :
      (s : Server) (w : World) (r : Request) (p : ℕ) (sub : Bytes)
      → IsFinal (serve_session fl json s w r p sub).1
  unfolding serve_session
  serve_session-IsFinal s w r p sub = ground (arith, handle_cast-IsFinal w.times (s.heap p))

  pub handle_session-IsFinal :
      (s : Server) (w : World) (r : Request) → IsFinal (handle_session fl json s w r).1
  unfolding handle_session
  handle_session-IsFinal s w r =
      let rest = drop (length (s.config.base_path ++ sessions_path)) r.path in
      let (id, sub) = split_path rest in found id sub (Store.get s.store id)
    where
      found :
          (id sub : Bytes) (found_it : Store.Fallible ℕ)
          → IsFinal
              (elim found_it as (λ _. Server × Response) [
                | err _ ↦ (s, write_error 404 (codes "session not found"))
                | ok p ↦ serve_session fl json s w r p sub
              ]).1
      found id sub (err e) = ground arith
      found id sub (ok p) = serve_session-IsFinal s w r p sub
