-- ===== src/Recorder.antt =====
-- internal/recorder/event.go and internal/recorder/recorder.go: a recording in memory. Each method
-- holds the recorder's lock, so it is one step. Instants and durations are nanoseconds.
pub mod Reading
pub mod Cast
pub mod Player
mod Tests
use cternal.Prelude.{
  ℕ, Bool, Option, none, some, List, [], ◌∷◌, ◌++◌, Bytes, codes, bytes_eq, leb, if◌then◌else◌,
  length, drop,
}
use cternal.Prelude.Int.{ℤ, pos, negsuc, ◌-ℤ◌, saturate64}

abbrev pub EventType : Type 0
EventType = Bytes

abbrev pub event_output : EventType
event_output = codes "o"

abbrev pub event_input : EventType
event_input = codes "i"

abbrev pub event_resize : EventType
event_resize = codes "r"

pub record Event : Type 0 where
  pub time : ℤ
  pub typ : EventType
  pub content : Bytes

pub record Recorder : Type 0 where
  pub events : List Event
  pub start : ℤ

-- A Go slice that may be nil.
pub data Slice {ℓ} (A : Type ℓ) : Type ℓ where
  nil : Slice A
  slice : List A → Slice A

abbrev pub elements {ℓ} : {A : Type ℓ} → Slice A → List A
elements nil = []
elements (slice xs) = xs

unfoldable pub new : ℤ → Recorder
new now = record { events = []; start = now }

-- time.Since, of a clock that shows `now`
unfoldable pub since : ℤ → ℤ → ℤ
unfolding saturate64 ◌-ℤ◌
since now start = saturate64 (now -ℤ start)

unfoldable pub add : Recorder → EventType → Bytes → ℤ → Recorder
unfolding since
add r typ content now = record r {
  events = r.events ++ record { time = since now r.start; typ = typ; content = content } ∷ [];
}

unfoldable pub add_at : Recorder → EventType → Bytes → ℤ → Recorder
add_at r typ content elapsed = record r {
  events = r.events ++ record { time = elapsed; typ = typ; content = content } ∷ [];
}

-- `none` is a panic: a slice expression with a negative bound.
unfoldable pub events_since : Recorder → ℤ → Option (Slice Event)
events_since r (pos offset) =
    if leb (length r.events) offset then some nil else some (slice (drop offset r.events))
events_since r (negsuc n) = none

unfoldable pub len : Recorder → ℕ
len r = length r.events

unfoldable pub all : Recorder → Option (Slice Event)
unfolding events_since
all r = events_since r (pos 0)

unfoldable pub is_output : Event → Bool
is_output ev = bytes_eq ev.typ event_output
