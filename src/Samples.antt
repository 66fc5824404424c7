-- ===== src/Samples.antt =====
-- Concrete values for the examples: numbers in billionths for float64, an encoder, sessions, a server.
pub mod Codec
use cternal.Prelude.{
  ℕ, ◌+◌, ◌*◌, ◌/◌, ◌≡◌, arith, true, false, none, some, List, [], ◌∷◌, Bytes, codes, ltb, ◌==◌,
  if◌then◌else◌,
}
use cternal.Prelude.Int.{ℤ, pos, negsuc, pos_part, sub_ℕ}
use cternal.Floats.{Floats}
use cternal.Recorder.{Event, Recorder, event_output, event_resize}
use cternal.Recorder.Cast.{Json}
use cternal.Recorder.Player.{Surroundings}
use cternal.Session.{Session, active, disconnected, mode_attach, mode_logs}
use cternal.Store.{Store}
use cternal.Ttl.{Manager, pending, stopped}
use cternal.Api.{Server, Config}

abbrev billion : ℕ
billion = 1000000000

abbrev divide : ℤ → ℤ → ℤ
divide (pos n) (pos x) = pos (n * billion / x)
divide (negsuc n) (pos x) = sub_ℕ 0 ((n * billion + billion) / x)
divide d (negsuc x) = pos 0

pub divide_one : (d : ℤ) → divide d (pos billion) ≡ d
divide_one (pos n) = ground arith
divide_one (negsuc n) = ground arith

abbrev pub floats : Floats
floats = record {
  Float = ℤ;
  positive = λ x. ltb 0 (pos_part x);
  at_most_zero = λ x. pos_part x == 0;
  one = pos billion;
  duration_of = λ x. x;
  seconds_of = λ d. d;
  divided = divide;
  divided_one = λ d p n. divide_one d;
}

abbrev pub json : Json floats
json = record {
  encode_header = λ h. some (codes "header");
  encode_row = λ t typ content. some content;
}

abbrev pub event : ℕ → Bytes → Bytes → Event
event time typ content = record { time = pos time; typ = typ; content = content }

abbrev pub recording : List Event
recording =
    event 3 event_output (codes "a")
    ∷ event 4 event_resize (codes "100x30")
    ∷ event 9 event_output (codes "b")
    ∷ []

abbrev pub outputs_only : List Event
outputs_only = event 3 event_output (codes "a") ∷ event 9 event_output (codes "b") ∷ []

abbrev pub recorder : Recorder
recorder = record { events = recording; start = pos 100 }

abbrev pub calm : Surroundings
calm = record { interrupts = λ _. false; write_fails = λ _. false }

abbrev pub attached : Session
attached = record {
  id = codes "a";
  container_id = codes "c1";
  container_name = codes "web";
  runtime = codes "docker";
  user = [];
  mode = mode_attach;
  created_at = pos 100;
  cols = 0;
  rows = 0;
  recorder = recorder;
  stream = some 7;
  status = active;
  channels = λ _. record { ch = []; done = false };
  made = 1;
  subscribers = 0 ∷ [];
  pump_started = true;
}

abbrev pub logged : Session
logged = record attached {
  id = codes "b";
  mode = mode_logs;
  stream = none;
  status = disconnected;
  made = 0;
  subscribers = [];
  pump_started = false;
}

abbrev pub heap : ℕ → Session
heap p = if p == 0 then attached else logged

abbrev pub store : Store
store = record { sessions = (codes "a", 0) ∷ (codes "b", 1) ∷ []; max_sessions = pos 0 }

-- A countdown of the session "b" that is due at 110.
abbrev pub manager : Manager
manager = record {
  timers = (codes "b", 0) ∷ [];
  ttl = pos 10;
  clocks = λ t.
      if t == 0
      then record { session_id = codes "b"; due = pos 110; phase = pending }
      else record { session_id = []; due = pos 0; phase = stopped };
  made = 1;
}

abbrev pub settings : Config
settings = record {
  runtime = codes "docker";
  max_sessions = pos 0;
  base_path = codes "/term";
  version = codes "1";
  scrollback = pos 1000;
  logout_url = [];
  webhook_urls = codes "http://hook" ∷ [];
  export_url = codes "http://export";
  user_header = codes "X-User";
}

abbrev pub server : Server
server = record {
  config = settings;
  heap = heap;
  made = 2;
  store = store;
  ttl_mgr = manager;
  active_sessions = pos 2;
  durations = [];
  ws_messages = [];
  posts = [];
  exports = [];
  calls = [];
  connections = [];
}
