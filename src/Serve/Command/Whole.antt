-- ===== src/Serve/Command/Whole.antt =====
-- What the serve command does as a whole.
use cternal.Prelude.{
  ℕ, ◌≡◌, refl, arith, inl, inr, none, some, List, [], ◌∷◌, ◌++◌, Bytes, codes, All, ◌≢◌,
  Bool-cases,
}
use cternal.Runtime.{gives, fails}
use cternal.Runtime.Clients.{AnyRuntime, Libraries, new_runtime}
use cternal.Runtime.Docker.Calls.{Reply-cases}
use cternal.Telemetry.{Sdk, Environment, init}
use cternal.Telemetry.Exporters.{init_lem}
use cternal.Session.{Session}
use cternal.Serve.{Settings, Running, ttl_of, run_serve}
use cternal.Serve.Started.{run_serve_lem}
use cternal.Api.History.{Reachable}
use cternal.Floats.{Floats}
use cternal.Recorder.Cast.{Json}
use cternal.Serve.Command.{is_flag, default_args, serve}

-- A command line is completed at most once.
pub default_args_twice : (args : List Bytes) → default_args (default_args args) ≡ default_args args
unfolding default_args
default_args_twice [] = refl
default_args_twice (program ∷ []) = refl
default_args_twice (program ∷ arg ∷ args) = elim (Bool-cases (is_flag arg)) [
  | inl flag ↦ rw (default_args, flag) refl
  | inr other ↦ rw (default_args, other, other) refl
]

-- Whatever the settings, and whatever telemetry and the libraries of the runtimes answer: the server that
-- runServe starts is one of those whose histories keep the server's invariants, with the limit of sessions and the
-- time to live that are set, no URL of its webhooks is empty, and it has the runtime that is made of the
-- settings; a failure of the telemetry is warned of and has no other effect. When runServe returns, all
-- exporters that telemetry has opened are shut down if telemetry was begun, and none of them if not; its
-- error is the runtime's, behind a prefix, if the runtime cannot be made, and otherwise that of the listener at the
-- address that is set.
pub serve_lem :
    (fl : Floats) (json : Json fl) (sdk : Sdk) (env : Environment) (lib : Libraries)
    (listen : Bytes → Bytes) (set : Settings) (heap : ℕ → Session)
    → let ran = serve sdk env lib listen set heap in
      let made = new_runtime lib set.runtime set.podman_host set.kubeconfig in
      ((st : Running)
        → ran.started ≡ gives st
        → Reachable fl json st.server.config (ttl_of set.session_ttl) st.server
          × (st.server.config.max_sessions ≡ set.max_sessions)
          × All (λ u. u ≢ []) st.server.config.webhook_urls
          × (made ≡ gives st.runtime))
      × (ran.warned ≡ none → ran.shut ≡ ran.otel.opened)
      × ((e : Bytes)
          → ran.warned ≡ some e
          → (ran.shut ≡ []) × ((init sdk env set.version).1 ≡ fails e))
      × ((e : Bytes) → made ≡ fails e → ran.error ≡ codes "runtime: " ++ e)
      × ((rt : AnyRuntime) → made ≡ gives rt → ran.error ≡ listen set.addr)
unfolding serve run_serve
serve_lem fl json sdk env lib listen set heap = (
  (run_serve_lem fl json lib set heap).0,
  λ w. elim (Reply-cases (init sdk env set.version).1) [
    | inr (e, failed) ↦ absurd (let w' = rw (serve, failed) at w in cc)
    | inl (p, made) ↦
        let (global, res, registered, shut) = (init_lem sdk env set.version).0 p made in
        rw (serve, made) shut
  ],
  λ e w. elim (Reply-cases (init sdk env set.version).1) [
    | inl (p, made) ↦ absurd (let w' = rw (serve, made) at w in cc)
    | inr (e', failed) ↦
        let w' = rw (serve, failed) at w in (rw (serve, failed) refl, ground (arith, failed))
  ],
  λ e failed. rw (serve, run_serve, failed) refl,
  λ rt made. rw (serve, run_serve, made) refl,
)
