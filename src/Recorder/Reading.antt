-- ===== src/Recorder/Reading.antt =====
-- What a reader of a recording sees, also one that comes back for what is new.
use cternal.Prelude.{
  ℕ, zero, suc, ◌≤◌, ◌≡◌, refl, sym, ◌∙◌, arith, none, some, List, [], ◌∷◌, ◌++◌, append-nil, Bytes,
  length, take, drop, take-append-drop, drop-append, leb, map, append_assoc, Bool-cases, inl, inr,
}
use cternal.Prelude.Int.{ℤ, pos, negsuc}
use cternal.Recorder.{
  Event, EventType, Recorder, Slice, nil, slice, elements, add, add_at, events_since, len, all,
  since,
}

drop-all : (n : ℕ) (xs : List Event) → length xs ≤ n → drop n xs ≡ []
drop-all zero [] h = refl
drop-all (suc n) [] h = refl
drop-all zero (x ∷ xs) h = absurd (omega arith)
drop-all (suc n) (x ∷ xs) h = drop-all n xs (omega arith)

events_since-elements :
    (r : Recorder) (offset : ℕ)
    → (s : Slice Event) × (events_since r (pos offset) ≡ some s)
      × (elements s ≡ drop offset r.events)
unfolding events_since
events_since-elements r offset = elim (Bool-cases (leb (length r.events) offset)) [
  | inl past ↦ (nil, ground arith, sym (drop-all offset r.events (ground arith)))
  | inr more ↦ (slice (drop offset r.events), ground arith, refl)
]

-- An offset that is not negative never panics, and the events before it and those returned are the
-- whole recording, in order.
pub events_since-drop :
    (r : Recorder) (offset : ℕ)
    → (s : Slice Event) × (events_since r (pos offset) ≡ some s)
      × (take offset r.events ++ elements s ≡ r.events)
events_since-drop r offset =
    let (s, e, rest) = events_since-elements r offset in
    (s, e, rw rest (take-append-drop offset r.events))

-- A negative offset panics.
pub events_since_negative : (r : Recorder) (n : ℕ) → events_since r (negsuc n) ≡ none
unfolding events_since
events_since_negative r n = refl

-- `All` does not panic and returns every event.
pub all-events : (r : Recorder) → (s : Slice Event) × (all r ≡ some s) × (elements s ≡ r.events)
unfolding all
all-events r = events_since-drop r 0

-- What a writer does to a recording: `Add` at a clock reading, or `AddAt` with a time of its own.
pub data Write : Type 0 where
  now : EventType → Bytes → ℤ → Write
  stamped : EventType → Bytes → ℤ → Write

pub write : Recorder → Write → Recorder
write r (now typ content clock) = add r typ content clock
write r (stamped typ content elapsed) = add_at r typ content elapsed

pub write_all : Recorder → List Write → Recorder
write_all r [] = r
write_all r (w ∷ ws) = write_all (write r w) ws

-- The event that a write leaves, of a recording that began at `start`.
pub event_of : ℤ → Write → Event
event_of start (now typ content clock) = record {
  time = since clock start;
  typ = typ;
  content = content;
}
event_of start (stamped typ content elapsed) = record {
  time = elapsed;
  typ = typ;
  content = content;
}

write-events : (r : Recorder) (w : Write) → (write r w).events ≡ r.events ++ event_of r.start w ∷ []
unfolding write event_of add add_at
write-events r (now typ content clock) = refl
write-events r (stamped typ content elapsed) = refl

write-start : (r : Recorder) (w : Write) → (write r w).start ≡ r.start
unfolding write add add_at
write-start r (now typ content clock) = refl
write-start r (stamped typ content elapsed) = refl

write_all-events :
    (r : Recorder) (ws : List Write)
    → (write_all r ws).events ≡ r.events ++ map (event_of r.start) ws
unfolding write_all
write_all-events r [] = rw append-nil
write_all-events r (w ∷ ws) =
    rw (write_all-events (write r w) ws, write-start r w, write-events r w, append_assoc)

-- A reader that has seen `n` events and asks for those since `n` gets exactly what was written after,
-- in order, however many writes of either kind there were.
pub events_since-write_all :
    (r : Recorder) (ws : List Write)
    → (s : Slice Event) × (events_since (write_all r ws) (pos (len r)) ≡ some s)
      × (elements s ≡ map (event_of r.start) ws)
unfolding len
events_since-write_all r ws =
    let (s, e, rest) = events_since-elements (write_all r ws) (length r.events) in
    (s, e, rest ∙ rw (write_all-events r ws) (drop-append r.events (map (event_of r.start) ws)))
