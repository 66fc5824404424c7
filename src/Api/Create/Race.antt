-- ===== src/Api/Create/Race.antt =====
-- One attach session for a container: kept by requests that run one after the other, and lost when two
-- requests look before either registers.
use mathlib.Core.Path.{subst}
use mathlib.Core.List.{Mem, Perm, mem-cons_self, mem-cons_of_mem}
use cternal.Prelude.{
  ℕ, ◌<◌, ◌≡◌, ◌≢◌, sym, ap, ◌∙◌, arith, Bool-cases, inl, inr, ◌⊎◌, Option, none, some, [], ◌∷◌,
  Bytes, bytes_eq, bytes_eq_iff,
}
use cternal.Dict.{Dict, lookup}
use cternal.Session.{Session, mode_attach}
use cternal.Store
use cternal.Store.{ok, err, session_not_found, is_for}
use cternal.Store.Registry
use cternal.Api.{Server, Request, Response}
use cternal.Api.Invariant.{IsSound, get-lookup, lookup-Made}
use cternal.Api.Create.{
  World, CreateSessionRequest, generate_id, reuse, make_session, register, create_session,
}
use cternal.Api.Create.Created.{register_lem, register-heap, make_session_lem}
use cternal.Api.Create.Outcome.{Outcome, rejects, reuses, registers, create_session-Outcome}

-- No two sessions of the registry are attached to one container.
abbrev pub AttachUnique : Server → Type 0
AttachUnique s =
    (i j : Bytes) (p q : ℕ)
    → Store.get s.store i ≡ ok p
    → Store.get s.store j ≡ ok q
    → (s.heap p).mode ≡ mode_attach
    → (s.heap q).mode ≡ mode_attach
    → (s.heap p).container_id ≡ (s.heap q).container_id
    → i ≡ j

lookup-Mem : (j : Bytes) (q : ℕ) (m : Dict ℕ) → lookup j m ≡ some q → Mem (j, q) m
unfolding lookup
lookup-Mem j q [] e = cc
lookup-Mem j q ((i, p) ∷ m) e = elim (Bool-cases (bytes_eq i j)) [
  | inl hit ↦
      let same : (i, p) ≡ (j, q) = ground (arith, bytes_eq_iff i j) in
      subst (λ (x : Bytes × ℕ). Mem x ((i, p) ∷ m)) same mem-cons_self
  | inr miss ↦ mem-cons_of_mem _ (lookup-Mem j q m (ground arith))
]

-- A request that finds no session to reuse: none of the registry is attached to its container.
reuse-none :
    (s : Server) (visited : Dict ℕ) (req : CreateSessionRequest) (j : Bytes) (q : ℕ)
    → Perm visited s.store.sessions
    → reuse s visited req ≡ none
    → req.mode ≡ mode_attach
    → Store.get s.store j ≡ ok q
    → (s.heap q).mode ≡ mode_attach
    → (s.heap q).container_id ≢ req.container_id
unfolding reuse
reuse-none s visited req j q perm e m g a c =
    elim (Registry.get_by_container_lem s.heap req.container_id mode_attach s.store visited perm) [
      | inl (id, sess, found, _, _) ↦ ground (arith, bytes_eq_iff req.mode mode_attach)
      | inr (_, nowhere) ↦
          nowhere j q (lookup-Mem j q s.store.sessions (get-lookup s.store j q g)) (
            ground (
              arith,
              bytes_eq_iff (s.heap q).container_id req.container_id,
              bytes_eq_iff (s.heap q).mode mode_attach,
            ))
    ]

module _ (s : Server) (w : World) (r : Request) (req : CreateSessionRequest) (strm : Option ℕ) where
  old_heap : (p : ℕ) → p < s.made → (register s w r req strm).0.heap p ≡ s.heap p
  old_heap p h = rw (register-heap s w r req strm) (ground arith)

  new_heap : (register s w r req strm).0.heap s.made ≡ make_session s w r req strm
  new_heap = rw (register-heap s w r req strm) (ground arith)

  -- A session that is found after a registration is the new one or was found before.
  entry :
      (i : Bytes) (p : ℕ)
      → IsSound s
      → lookup (generate_id w.random) s.store.sessions ≡ none
      → Store.get (register s w r req strm).0.store i ≡ ok p
      → ((i ≡ generate_id w.random) × (p ≡ s.made)) ⊎ ((Store.get s.store i ≡ ok p) × (p < s.made))
  entry i p v free g = elim ((register_lem s w r req strm v free).1) [
    | inl (_, _, _, st, _, _, _) ↦
        let g' : Store.get s.store i ≡ ok p = rw (← st) g in
        inr (g', lookup-Made s.made i p s.store.sessions v.known (get-lookup s.store i p g'))
    | inr (_, _, found, _, _, _) ↦ elim (Bool-cases (bytes_eq (generate_id w.random) i)) [
      | inl hit ↦
          inl (ground (arith, bytes_eq_iff (generate_id w.random) i), ground (arith, found i))
      | inr miss ↦
          let g' : Store.get s.store i ≡ ok p = ground (arith, found i) in
          inr (g', lookup-Made s.made i p s.store.sessions v.known (get-lookup s.store i p g'))
    ]
  ]

  register-AttachUnique :
      (visited : Dict ℕ)
      → IsSound s
      → lookup (generate_id w.random) s.store.sessions ≡ none
      → Perm visited s.store.sessions
      → reuse s visited req ≡ none
      → AttachUnique s
      → AttachUnique (register s w r req strm).0
  register-AttachUnique visited v free perm alone u i j p q gi gj mi mj c =
      let (_, cont, mode, _, _) = make_session_lem s w r req strm in
      let after : ℕ → Session = (register s w r req strm).0.heap in
      let only_new : (k : Bytes) (o : ℕ)
          → Store.get s.store k ≡ ok o
          → o < s.made
          → ((register s w r req strm).0.heap o).mode ≡ mode_attach
          → ((register s w r req strm).0.heap s.made).mode ≡ mode_attach
          → ((register s w r req strm).0.heap o).container_id
            ≡ ((register s w r req strm).0.heap s.made).container_id
          → ⊥ =
        λ k o g b mo mn co.
          reuse-none s visited req k o perm alone (sym mode ∙ rw (← new_heap) mn) g
            (rw (← old_heap o b) mo) (rw (← old_heap o b) (co ∙ rw new_heap cont)) in
      elim (entry i p v free gi) [
        | inl (ei, ep) ↦ elim (entry j q v free gj) [
          | inl (ej, eq) ↦ ei ∙ sym ej
          | inr (oj, bj) ↦ absurd (
              only_new j q oj bj mj (subst (λ (x : ℕ). (after x).mode ≡ mode_attach) ep mi)
                (sym c ∙ ap (λ (x : ℕ). (after x).container_id) ep))
        ]
        | inr (oi, bi) ↦ elim (entry j q v free gj) [
          | inl (ej, eq) ↦ absurd (
              only_new i p oi bi mi (subst (λ (x : ℕ). (after x).mode ≡ mode_attach) eq mj)
                (c ∙ ap (λ (x : ℕ). (after x).container_id) eq))
          | inr (oj, bj) ↦
              u i j p q oi oj (rw (← old_heap p bi) mi) (rw (← old_heap q bj) mj)
                (rw (← old_heap p bi, ← old_heap q bj) c)
        ]
      ]

-- A request for a session that runs alone, in whatever order the registry is visited and whatever it
-- is answered, keeps the server sound, and keeps to one attach session for a container.
pub create_session-IsSound :
    (s : Server) (w : World) (visited : Dict ℕ) (r : Request)
    → IsSound s
    → lookup (generate_id w.random) s.store.sessions ≡ none
    → Perm visited s.store.sessions
    → AttachUnique s
    → let s' = (create_session s w visited r).0 in IsSound s' × AttachUnique s'
create_session-IsSound s w visited r v free perm u =
    kept (create_session s w visited r) (create_session-Outcome s w visited r)
  where
    kept : (x : Server × Response) → Outcome s w visited r x → IsSound x.0 × AttachUnique x.0
    kept _ (rejects answer e) = (v, u)
    kept _ (reuses req p m g answer e) = (v, u)
    kept _ (registers req strm c alone o) = (
      (register_lem s w r req strm v free).0,
      register-AttachUnique s w r req strm visited v free perm alone u,
    )
