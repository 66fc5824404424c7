-- ===== src/Session.antt =====
-- internal/session/session.go: one terminal session. Each method holds the session's lock, so it is
-- one step; `Broadcast` copies the subscribers under the lock and then sends without blocking, which is
-- one step here as well. A subscription is a pointer to its two channels; a session's own channels are numbered in
-- the order in which they were made.
pub mod Channels
pub mod Pump
mod Tests
use cternal.Prelude.{
  ℕ, suc, Bool, true, false, not, Option, none, some, List, [], ◌∷◌, ◌++◌, Bytes, codes, bytes_eq,
  ltb, ◌==◌, if◌then◌else◌, length,
}
use cternal.Prelude.Int.{ℤ}
use cternal.Newline.{normalize_lf}
use cternal.Recorder.{Recorder, event_output, new, add}

abbrev pub Mode : Type 0
Mode = Bytes

abbrev pub mode_exec : Mode
mode_exec = codes "exec"

abbrev pub mode_attach : Mode
mode_attach = codes "attach"

abbrev pub mode_logs : Mode
mode_logs = codes "logs"

pub data Status : Type 0 where
  active : Status
  disconnected : Status

-- What is queued in `Ch`, oldest first, and whether `Done` is closed.
pub record Subscription : Type 0 where
  pub ch : List Bytes
  pub done : Bool

abbrev pub ch_capacity : ℕ
ch_capacity = 64

-- A stream is known by the number that the runtime gives it.
pub record Session : Type 0 where
  pub id : Bytes
  pub container_id : Bytes
  pub container_name : Bytes
  pub runtime : Bytes
  pub user : Bytes
  pub mode : Mode
  pub created_at : ℤ
  pub cols : ℕ
  pub rows : ℕ
  pub recorder : Recorder
  pub stream : Option ℕ
  pub status : Status
  pub channels : ℕ → Subscription
  pub made : ℕ
  pub subscribers : List ℕ
  pub pump_started : Bool

abbrev pub SessionOption : Type 0
SessionOption = Session → Session

unfoldable pub with_container_name : Bytes → SessionOption
with_container_name name s = record s { container_name = name }

unfoldable pub with_runtime : Bytes → SessionOption
with_runtime rt s = record s { runtime = rt }

unfoldable pub with_user : Bytes → SessionOption
with_user user s = record s { user = user }

unfoldable pub with_size : ℕ → ℕ → SessionOption
with_size cols rows s = record s { cols = cols; rows = rows }

apply_options : List SessionOption → Session → Session
apply_options [] s = s
apply_options (opt ∷ opts) s = apply_options opts (opt s)

abbrev fresh_channel : Subscription
fresh_channel = record { ch = []; done = false }

unfoldable pub new_session : Bytes → Bytes → Mode → Option ℕ → ℤ → List SessionOption → Session
unfolding apply_options new
new_session id container_id mode stream now opts = apply_options opts (record {
  id = id;
  container_id = container_id;
  container_name = [];
  runtime = [];
  user = [];
  mode = mode;
  created_at = now;
  cols = 0;
  rows = 0;
  recorder = new now;
  stream = stream;
  status = active;
  channels = λ _. fresh_channel;
  made = 0;
  subscribers = [];
  pump_started = false;
})

unfoldable pub get_status : Session → Status
get_status s = s.status

unfoldable pub set_status : Session → Status → Session
set_status s st = record s { status = st }

abbrev pub update {ℓ} : {A : Type ℓ} → (ℕ → A) → ℕ → A → ℕ → A
update f p v q = if p == q then v else f q

-- The new subscription's number, and the session with it.
unfoldable pub subscribe : Session → ℕ × Session
subscribe s = (
  s.made,
  record s {
    channels = update s.channels s.made fresh_channel;
    made = suc s.made;
    subscribers = s.subscribers ++ s.made ∷ [];
  },
)

-- The first occurrence is cut out.
cut_out : ℕ → List ℕ → List ℕ
cut_out sub [] = []
cut_out sub (v ∷ vs) = if v == sub then vs else v ∷ cut_out sub vs

-- `none` is the panic of closing a channel twice.
unfoldable pub unsubscribe : Session → ℕ → Option Session
unfolding cut_out
unsubscribe s sub =
    let c = s.channels sub in
    if c.done
    then none
    else some (record s {
      subscribers = cut_out sub s.subscribers;
      channels = update s.channels sub (record c { done = true });
    })

-- A send that is dropped where the queue is full.
unfoldable pub offer : Bytes → Subscription → Subscription
offer content c =
    if ltb (length c.ch) ch_capacity then record c { ch = c.ch ++ content ∷ [] } else c

send_all : Bytes → List ℕ → (ℕ → Subscription) → ℕ → Subscription
unfolding offer
send_all content [] channels = channels
send_all content (sub ∷ subs) channels =
    send_all content subs (update channels sub (offer content (channels sub)))

unfoldable pub broadcast : Session → Bytes → Session
unfolding send_all
broadcast s content = record s { channels = send_all content s.subscribers s.channels }

unfoldable pub subscriber_count : Session → ℕ
subscriber_count s = length s.subscribers

-- One round of the pump's loop, for the bytes that a read returned when the clock showed `now`.
unfoldable pub pump_round : Session → Bytes → ℤ → Session
unfolding add broadcast
pump_round s content now =
    let text = if bytes_eq s.mode mode_exec then content else normalize_lf content in
    broadcast (record s { recorder = add s.recorder event_output text now }) text

-- The loop, until a read fails: the reads that succeed, each with the clock at its time.
unfoldable pub pump_loop : Session → List (Bytes × ℤ) → Session
unfolding pump_round
pump_loop s [] = s
pump_loop s ((content, now) ∷ reads) = pump_loop (pump_round s content now) reads

-- Whether this call starts the pump's goroutine.
unfoldable pub start_stream_pump : Session → Session × Bool
start_stream_pump s = elim s.stream [
  | none ↦ (s, false)
  | some stream ↦ (record s { pump_started = true }, not s.pump_started)
]
