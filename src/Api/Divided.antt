-- ===== src/Api/Divided.antt =====
-- internal/api/server.go: teardowns whose calls interleave. EvictSession and handleSession look a session up,
-- and evict makes one call after another, each with a lock of its own, so other goroutines may run between
-- any two of them: registrations, countdowns that start or are cancelled, and other teardowns, of the same
-- session too.
pub mod Whole
pub mod Gauge
mod Tests
use cternal.Prelude.{ℕ, zero, suc, ◌≡◌, Option, none, some, List, [], ◌∷◌, ◌++◌, Bytes, codes}
use cternal.Prelude.Int.{ℤ}
use cternal.Dict.{lookup}
use cternal.Floats.{Floats}
use cternal.Recorder.Cast.{Json}
use cternal.Session.{Session}
use cternal.Store
use cternal.Store.{new_store, ok, err}
use cternal.Ttl
use cternal.Ttl.{new_manager}
use cternal.Api.{Config, Server, Request, new_server, notify}
use cternal.Api.Teardown.{close_stream, count_end, auto_export}
use cternal.Api.Create.{World, CreateSessionRequest, generate_id, register}

-- What a teardown has done last.
pub data Stage : Type 0 where
  found : Stage
  timer_removed : Stage
  stream_closed : Stage
  unregistered : Stage
  counted : Stage
  told : Stage
  exported : Stage

pub record Teardown : Type 0 where
  pub session : ℕ
  pub stage : Stage

-- The server, and the teardowns that have been begun.
pub record Divided : Type 0 where
  pub server : Server
  pub teardowns : List Teardown

pub data DividedStep : Type 0 where
  registers : World → Request → CreateSessionRequest → Option ℕ → DividedStep
  starts_ttl : Bytes → ℤ → DividedStep
  cancels_ttl : Bytes → DividedStep
  looks_up : Bytes → DividedStep
  goes_on : ℕ → ℤ → DividedStep

module _ (fl : Floats) (json : Json fl) where
  -- The next call of evict.
  unfoldable pub advance : Server → ℕ → ℤ → Stage → Server × Stage
  advance s p now found = (record s { ttl_mgr = Ttl.remove s.ttl_mgr (s.heap p).id }, timer_removed)
  advance s p now timer_removed = (close_stream s (s.heap p), stream_closed)
  advance s p now stream_closed =
      (record s { store = Store.remove s.store (s.heap p).id }, unregistered)
  advance s p now unregistered = (count_end s (s.heap p) now, counted)
  advance s p now counted = (notify s (codes "session.end") (s.heap p), told)
  advance s p now told = (auto_export fl json s (s.heap p), exported)
  advance s p now exported = (s, exported)

  -- One of the teardowns goes on.
  unfoldable pub go_on : Server → List Teardown → ℕ → ℤ → Server × List Teardown
  unfolding advance
  go_on s [] i now = (s, [])
  go_on s (t ∷ ts) zero now =
      let (s', stage) = advance s t.session now t.stage in (s', record t { stage = stage } ∷ ts)
  go_on s (t ∷ ts) (suc i) now = let (s', ts') = go_on s ts i now in (s', t ∷ ts')

  unfoldable pub divided_step : Divided → DividedStep → Divided
  unfolding go_on
  divided_step d (registers w r req strm) = record d { server = (register d.server w r req strm).0 }
  divided_step d (starts_ttl id now) = record d {
    server = record d.server { ttl_mgr = Ttl.start_ttl d.server.ttl_mgr id now };
  }
  divided_step d (cancels_ttl id) = record d {
    server = record d.server { ttl_mgr = (Ttl.cancel_ttl d.server.ttl_mgr id).0 };
  }
  divided_step d (looks_up id) = elim (Store.get d.server.store id) [
    | err e ↦ d
    | ok p ↦ record d { teardowns = record { session = p; stage = found } ∷ d.teardowns }
  ]
  divided_step d (goes_on i now) =
      let (s, ts) = go_on d.server d.teardowns i now in record { server = s; teardowns = ts }

  -- A new id is not in use.
  abbrev pub IsFresh : Divided → DividedStep → Type 0
  IsFresh d (registers w r req strm) = lookup (generate_id w.random) d.server.store.sessions ≡ none
  IsFresh d step = Unit {0}

  pub data Interleaves (c : Config) (ttl : ℤ) : Divided → Type 0 where
    begins :
        (heap : ℕ → Session)
        → Interleaves c ttl (record {
          server = new_server c (new_store c.max_sessions) (new_manager ttl) heap;
          teardowns = [];
        })
    steps :
        {d : Divided}
        → Interleaves c ttl d
        → (step : DividedStep) → IsFresh d step
        → Interleaves c ttl (divided_step d step)
