-- ===== src/Api/History.antt =====
-- internal/api and internal/session together: the server with everything that may happen to it. A step is
-- what one goroutine does without another in between; a request is one step, by whatever
-- route it comes, but a session may also be registered in a step of its own, when the reads of its request
-- lie in the past; a teardown is one step.
pub mod Soundness
pub mod Contract
mod Tests
use cternal.Prelude.{ℕ, Bool, Option, none, some, Bytes, if◌then◌else◌, ◌≡◌}
use cternal.Prelude.Int.{ℤ}
use cternal.Dict.{Dict, lookup}
use cternal.Floats.{Floats}
use cternal.Recorder.Cast.{Json}
use cternal.Session.{Session, subscribe, unsubscribe, pump_round}
use cternal.Store.{new_store}
use cternal.Ttl.{new_manager}
use cternal.Api.{Config, Server, Request, new_server, set_session}
use cternal.Api.Teardown.{expire}
use cternal.Api.Create.{World, CreateSessionRequest, generate_id, register}
use cternal.Api.Mux.{Frontend, serve_http}
use cternal.Api.Socket.{Wire, dispatch_message, open_socket, close_socket}

pub data Step : Type 0 where
  registers : World → Request → CreateSessionRequest → Option ℕ → Step
  requests : Frontend → World → Dict ℕ → Request → Step
  expires : ℕ → ℤ → Step
  opens : Bytes → Bool → (ℕ → Bool) → Step
  closes : Bytes → ℕ → ℤ → Step
  hears : Wire → Bytes → ℕ → ℤ → Step
  pumps : ℕ → Bytes → ℤ → Step
  subscribes : ℕ → Step
  unsubscribes : ℕ → ℕ → Step

put : Server → ℕ → Session → Server
put s p sess = record s { heap = set_session s.heap p sess }

module _ (fl : Floats) (json : Json fl) where
  -- A subscription is cancelled once, so the panic of a second time does not arise.
  unfoldable pub apply : Server → Step → Server
  unfolding put
  apply s (registers w r req strm) = (register s w r req strm).0
  apply s (requests front w visited r) = (serve_http fl json front s w visited r).0
  apply s (expires t now) = expire fl json s t now
  apply s (opens id upgrades write_fails) = (open_socket s id upgrades write_fails).0
  apply s (closes id p now) = close_socket s id p now
  apply s (hears wire raw p now) = dispatch_message wire s raw p now
  apply s (pumps p content now) = put s p (pump_round (s.heap p) content now)
  apply s (subscribes p) = put s p (subscribe (s.heap p)).1
  apply s (unsubscribes p sub) = elim (unsubscribe (s.heap p) sub) [
    | none ↦ s
    | some sess ↦ put s p sess
  ]

  -- What is asked of the random ids: a new one is not in use.
  abbrev pub IsFresh : Server → Step → Type 0
  IsFresh s (registers w r req strm) = lookup (generate_id w.random) s.store.sessions ≡ none
  IsFresh s (requests front w visited r) = lookup (generate_id w.random) s.store.sessions ≡ none
  IsFresh s step = Unit {0}

  -- The states that a server may get to from its start by the serve command.
  pub data Reachable (c : Config) (ttl : ℤ) : Server → Type 0 where
    started :
        (heap : ℕ → Session)
        → Reachable c ttl (new_server c (new_store c.max_sessions) (new_manager ttl) heap)
    then_step :
        {s : Server}
        → Reachable c ttl s
        → (step : Step) → IsFresh s step
        → Reachable c ttl (apply s step)
