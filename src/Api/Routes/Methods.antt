-- ===== src/Api/Routes/Methods.antt =====
-- What the requests to a session do, by method.
use mathlib.Core.Path.{subst}
use cternal.Prelude.{
  ℕ, ◌≡◌, ◌≢◌, refl, sym, ap, ◌∙◌, arith, true, false, Bool-cases, inl, ◌⊎◌, inr, [], ◌++◌, Bytes,
  codes, bytes_eq, bytes_eq_iff, if◌then◌else◌, drop, length,
}
use cternal.Floats.{Floats}
use cternal.Recorder.Cast.{Json}
use cternal.Store
use cternal.Store.{ok, err, session_not_found}
use cternal.Api.{Server, Request, method_delete, method_get, write_error, empty}
use cternal.Api.Invariant.{IsSound, get-cases}
use cternal.Api.Teardown.{evict, evict_session}
use cternal.Api.Teardown.Ended.{evict_session_lem}
use cternal.Api.Create.{World}
use cternal.Api.Routes.{sessions_path, split_path, serve_session, handle_session}
use cternal.Api.Routes.Paths.{IsPlain, split_path_lem, drop-prefix}

module _ (fl : Floats) (json : Json fl) (s : Server) (w : World) (r : Request) where
  serve_session-same :
      (p : ℕ) (sub : Bytes) → r.method ≢ method_delete → (serve_session fl json s w r p sub).0 ≡ s
  unfolding serve_session
  serve_session-same p sub n =
      let other : bytes_eq r.method method_delete ≡ false =
        ground (arith, bytes_eq_iff r.method method_delete) in
      ground arith

  served :
      (p : ℕ)
      → r.method ≡ method_delete
      → serve_session fl json s w r p []
        ≡ (evict fl json s p w.now, record { status = 204; body = empty })
  unfolding serve_session bytes_eq
  served p m =
      let to_delete : bytes_eq r.method method_delete ≡ true = (bytes_eq_iff _ _).1 m in
      let not_get : bytes_eq r.method method_get ≡ false =
        subst (λ v. bytes_eq v method_get ≡ false) (sym m) refl in
      rw (to_delete, not_get)

  -- A request to a session whose method is not DELETE changes nothing of the server, whatever its path
  -- and its answer.
  pub handle_session-same : r.method ≢ method_delete → (handle_session fl json s w r).0 ≡ s
  unfolding handle_session
  handle_session-same n =
      let target = split_path (drop (length (s.config.base_path ++ sessions_path)) r.path) in
      elim (get-cases s.store target.0) [
        | inl e ↦ rw (handle_session, e)
        | inr (p, e) ↦ rw (handle_session, e) (serve_session-same p target.1 n)
      ]

  serve_session-cases :
      (p : ℕ) (sub : Bytes)
      → ((serve_session fl json s w r p sub).0 ≡ s)
        ⊎ ((serve_session fl json s w r p sub).0 ≡ evict fl json s p w.now)
  unfolding serve_session
  serve_session-cases p sub = elim (Bool-cases (bytes_eq sub [])) [
    | inr other ↦ inl (ground arith)
    | inl own ↦ elim (Bool-cases (bytes_eq r.method method_get)) [
      | inl get ↦ inl (ground arith)
      | inr no_get ↦ elim (Bool-cases (bytes_eq r.method method_delete)) [
        | inl del ↦ inr (ground arith)
        | inr no_del ↦ inl (ground arith)
      ]
    ]
  ]

  -- Whatever is asked of a session, the server is left as it was, or a session that is found is torn down.
  pub handle_session-cases :
      ((handle_session fl json s w r).0 ≡ s)
      ⊎ ((id : Bytes) × (p : ℕ) × (Store.get s.store id ≡ ok p)
          × ((handle_session fl json s w r).0 ≡ evict_session fl json s id w.now))
  unfolding handle_session evict_session
  handle_session-cases =
      let target = split_path (drop (length (s.config.base_path ++ sessions_path)) r.path) in
      elim (get-cases s.store target.0) [
        | inl e ↦ inl (rw (handle_session, e))
        | inr (p, e) ↦ elim (serve_session-cases p target.1) [
          | inl same ↦ inl (rw (handle_session, e) same)
          | inr torn ↦ inr (target.0, p, e, rw (handle_session, evict_session, e) torn)
        ]
      ]

  -- A DELETE of a session that is found, by its own path, is answered 204; the session is then not
  -- found, every other is found as before, and the server stays sound.
  pub handle_session_delete :
      (id : Bytes) (p : ℕ)
      → IsSound s
      → IsPlain id
      → id ≢ []
      → Store.get s.store id ≡ ok p
      → r.method ≡ method_delete
      → r.path ≡ (s.config.base_path ++ sessions_path) ++ id
      → let (s', answer) = handle_session fl json s w r in
        (answer ≡ record { status = 204; body = empty })
        × IsSound s'
        × ((j : Bytes)
            → Store.get s'.store j
              ≡ (if bytes_eq id j then err session_not_found else Store.get s.store j))
  unfolding handle_session evict_session
  handle_session_delete id p v plain n e m path =
      let gone : evict fl json s p w.now ≡ evict_session fl json s id w.now =
        sym (rw (evict_session, e)) in
      let target : split_path (drop (length (s.config.base_path ++ sessions_path)) r.path)
          ≡ (id, []) =
        ap (λ v. split_path (drop (length (s.config.base_path ++ sessions_path)) v)) path
        ∙ ap split_path (drop-prefix s.config.base_path id)
        ∙ (split_path_lem id [] plain n).0 in
      rw (handle_session, target, e, target, served p m, gone)
        (let (v', found, idle) = evict_session_lem fl json s id p w.now v e in (refl, v', found))

  -- Any request for a session that is not found is answered 404 and changes nothing.
  pub handle_session_missing :
      (id sub : Bytes)
      → split_path (drop (length (s.config.base_path ++ sessions_path)) r.path) ≡ (id, sub)
      → Store.get s.store id ≡ err session_not_found
      → handle_session fl json s w r ≡ (s, write_error 404 (codes "session not found"))
  unfolding handle_session
  handle_session_missing id sub path e = rw (handle_session, path, e)
