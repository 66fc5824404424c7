-- ===== src/Serve/Started.antt =====
-- The server that the serve command starts.
use cternal.Prelude.{ℕ, ◌*◌, ◌≤◌, ◌≡◌, ◌≢◌, refl, arith, inl, inr, [], ◌++◌, Bytes, codes, All}
use cternal.Prelude.Int.{ℤ, pos, negsuc, Fits64, wrap64-eq, wrap64-Fits64}
use mathlib.Core.Path.{subst}
use cternal.Floats.{Floats}
use cternal.Recorder.Cast.{Json}
use cternal.Runtime.{gives, fails}
use cternal.Runtime.Clients.{Libraries, new_runtime}
use cternal.Runtime.Docker.Calls.{Reply-cases, gives-injective}
use cternal.Session.{Session}
use cternal.Store.{new_store}
use cternal.Api.{new_server}
use cternal.Api.History.{Reachable, started}
use cternal.Serve.{Settings, Running, second, ttl_of, run_serve}
use cternal.Serve.Urls.{webhook_urls_lem}

-- The time to live is a value of int64 whatever is set, and the one that is set, in nanoseconds, for up to
-- 9,223,372,036 seconds, which is 292 years.
pub ttl_of_lem :
    (seconds : ℕ)
    → seconds ≤ 9223372036
    → (ttl_of (pos seconds) ≡ pos (seconds * second)) × ((set : ℤ) → Fits64 (ttl_of set))
unfolding ttl_of
ttl_of_lem seconds h = (wrap64-eq (pos (seconds * second)) (omega arith, omega arith), fits)
  where
    fits : (set : ℤ) → Fits64 (ttl_of set)
    fits (pos n) = wrap64-Fits64 _
    fits (negsuc n) = wrap64-Fits64 _

-- Whatever the settings and whatever the libraries answer: a server that is started is one of those whose
-- histories keep the server's invariants, with the limit of sessions and the time to live that are set,
-- and no URL of its webhooks is empty; and it is given the runtime that is made of the settings. No server is
-- started exactly if that runtime cannot be made, and the error is then the runtime's, behind a prefix.
pub run_serve_lem :
    (fl : Floats) (json : Json fl) (lib : Libraries) (set : Settings) (heap : ℕ → Session)
    → ((st : Running)
        → run_serve lib set heap ≡ gives st
        → Reachable fl json st.server.config (ttl_of set.session_ttl) st.server
          × (st.server.config.max_sessions ≡ set.max_sessions)
          × All (λ u. u ≢ []) st.server.config.webhook_urls
          × (new_runtime lib set.runtime set.podman_host set.kubeconfig ≡ gives st.runtime))
      × ((e : Bytes)
          → new_runtime lib set.runtime set.podman_host set.kubeconfig ≡ fails e
          → run_serve lib set heap ≡ fails (codes "runtime: " ++ e))
unfolding run_serve new_server new_store
run_serve_lem fl json lib set heap = (
  λ st h. elim (Reply-cases (new_runtime lib set.runtime set.podman_host set.kubeconfig)) [
    | inr (e, failed) ↦ absurd (let h' = rw (run_serve, failed) at h in cc)
    | inl (rt, made) ↦
        subst
          (λ (x : Running).
            Reachable fl json x.server.config (ttl_of set.session_ttl) x.server
            × (x.server.config.max_sessions ≡ set.max_sessions)
            × All (λ u. u ≢ []) x.server.config.webhook_urls
            × (new_runtime lib set.runtime set.podman_host set.kubeconfig ≡ gives x.runtime))
          (gives-injective _ _ (rw (run_serve, made) at h))
          (started heap, refl, (webhook_urls_lem set.webhook_flags set.webhook_env).1, made)
  ],
  λ e failed. rw (run_serve, failed) refl,
)
