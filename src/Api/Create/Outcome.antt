-- ===== src/Api/Create/Outcome.antt =====
-- What becomes of a request for a session.
use cternal.Prelude.{
  ℕ, ◌≡◌, ◌≢◌, refl, arith, Option-cases, inl, inr, ◌⊎◌, Option, none, some, [], Bytes,
  bytes_eq_iff,
}
use cternal.Dict.{Dict}
use cternal.Session.{mode_attach}
use cternal.Store
use cternal.Store.{ok, err, session_not_found, max_sessions_reached}
use cternal.Runtime.{Reply, gives, fails}
use cternal.Api.{Server, Request, Response}
use cternal.Api.Create.{
  World, CreateSessionRequest, admit, reuse, connect, Stream, opened, unknown_mode, refused,
  register, create_session,
}

-- Where a request for a session ends: refused before it has any effect, given a session that exists,
-- or registered.
pub data Outcome (s : Server) (w : World) (visited : Dict ℕ) (r : Request)
    : Server × Response → Type 0 where
  rejects :
      (answer : Response)
      → (answer.status ≡ 400) ⊎ (answer.status ≡ 500)
      → Outcome s w visited r (s, answer)
  reuses :
      (req : CreateSessionRequest) (p : ℕ)
      → req.mode ≡ mode_attach
      → Store.get_by_container s.heap visited req.container_id mode_attach ≡ ok p
      → (answer : Response) → answer.status ≡ 200
      → Outcome s w visited r (s, answer)
  registers :
      (req : CreateSessionRequest) (strm : Option ℕ)
      → req.container_id ≢ []
      → reuse s visited req ≡ none
      → connect w.runtime req ≡ opened strm
      → Outcome s w visited r (register s w r req strm)

Reply-cases :
    (x : Reply CreateSessionRequest)
    → ((req : CreateSessionRequest) × (x ≡ gives req)) ⊎ ((msg : Bytes) × (x ≡ fails msg))
Reply-cases (gives req) = inl (req, refl)
Reply-cases (fails msg) = inr (msg, refl)

Stream-cases :
    (x : Stream)
    → ((strm : Option ℕ) × (x ≡ opened strm))
      ⊎ ((x ≡ unknown_mode) ⊎ ((msg : Bytes) × (x ≡ refused msg)))
Stream-cases (opened strm) = inl (strm, refl)
Stream-cases unknown_mode = inr (inl refl)
Stream-cases (refused msg) = inr (inr (msg, refl))

admit_container :
    (w : World) (r : Request) (req : CreateSessionRequest)
    → admit w r ≡ gives req
    → req.container_id ≢ []
unfolding admit
admit_container w r req e empty = elim (Reply-cases (w.decode r.body)) [
  | inr (msg, d) ↦ ground arith
  | inl (given, d) ↦
      ground (arith, bytes_eq_iff given.container_id [], bytes_eq_iff req.container_id [])
]

Fallible-cases :
    (x : Store.Fallible ℕ) → ((p : ℕ) × (x ≡ ok p)) ⊎ ((e : Store.StoreError) × (x ≡ err e))
Fallible-cases (ok p) = inl (p, refl)
Fallible-cases (err e) = inr (e, refl)

reuse-some :
    (s : Server) (visited : Dict ℕ) (req : CreateSessionRequest) (p : ℕ)
    → reuse s visited req ≡ some p
    → (req.mode ≡ mode_attach)
      × (Store.get_by_container s.heap visited req.container_id mode_attach ≡ ok p)
unfolding reuse
reuse-some s visited req p e =
    elim (Fallible-cases (Store.get_by_container s.heap visited req.container_id mode_attach)) [
      | inl (q, g) ↦ ground (arith, bytes_eq_iff req.mode mode_attach)
      | inr (x, g) ↦ ground arith
    ]

pub create_session-Outcome :
    (s : Server) (w : World) (visited : Dict ℕ) (r : Request)
    → Outcome s w visited r (create_session s w visited r)
unfolding create_session
create_session-Outcome s w visited r = elim (Reply-cases (admit w r)) [
  | inr (msg, e) ↦ rw (create_session, e) (rejects _ (inl refl))
  | inl (req, e) ↦ elim (Option-cases (reuse s visited req)) [
    | inr (p, old) ↦
        let (m, g) = reuse-some s visited req p old in
        rw (create_session, e, old) (reuses req p m g _ refl)
    | inl fresh ↦ elim (Stream-cases (connect w.runtime req)) [
      | inl (strm, c) ↦
          rw (create_session, e, fresh, c) (registers req strm (admit_container w r req e) fresh c)
      | inr (inl c) ↦ rw (create_session, e, fresh, c) (rejects _ (inl refl))
      | inr (inr (msg, c)) ↦ rw (create_session, e, fresh, c) (rejects _ (inr refl))
    ]
  ]
]
