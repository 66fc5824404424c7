-- ===== src/Session/Pump.antt =====
-- What the pump of an attached stream records and sends.
use cternal.Prelude.{
  ℕ, zero, suc, ◌≤◌, ◌≡◌, refl, sym, ap, ◌∙◌, arith, true, Bool-cases, inl, inr, List, [], ◌∷◌,
  ◌++◌, map, append-nil, append_assoc, Bytes, bytes_eq, ltb, if◌then◌else◌, length, length-append,
  take, take_all, take_append_full,
}
use cternal.Prelude.Int.{ℤ}
use cternal.Newline.{normalize_lf}
use cternal.Recorder.{Event, event_output, add, since}
use cternal.Session.{Session, Mode, ch_capacity, mode_exec, broadcast, pump_round, pump_loop}
use cternal.Session.Channels.{IsSound, member, broadcast_lem, pump_round-IsSound}

-- What the pump makes of the bytes of a read.
pub pumped : Mode → Bytes → Bytes
pumped mode content = if bytes_eq mode mode_exec then content else normalize_lf content

-- The event that it records.
pub pumped_event : Mode → ℤ → Bytes × ℤ → Event
pumped_event mode start (content, now) = record {
  time = since now start;
  typ = event_output;
  content = pumped mode content;
}

abbrev pub texts : Mode → List (Bytes × ℤ) → List Bytes
texts mode = map (λ (r : Bytes × ℤ). pumped mode r.0)

-- A round changes neither the mode, the subscribers nor the start of the recording.
round-same :
    (s : Session) (content : Bytes) (now : ℤ)
    → let s' = pump_round s content now in
      (s'.mode ≡ s.mode)
      × (s'.subscribers ≡ s.subscribers)
      × (s'.recorder.start ≡ s.recorder.start)
      × (s'.recorder.events
          ≡ s.recorder.events ++ pumped_event s.mode s.recorder.start (content, now) ∷ [])
unfolding pump_round broadcast add pumped_event pumped
round-same s content now = (refl, refl, refl, refl)

-- A queue that is offered one text more.
queue_full :
    (xs : List Bytes) (x : Bytes)
    → length xs ≤ ch_capacity
    → (if ltb (length xs) ch_capacity then xs ++ x ∷ [] else xs) ≡ take ch_capacity (xs ++ x ∷ [])
queue_full xs x h = elim (Bool-cases (ltb (length xs) ch_capacity)) [
  | inl room ↦
      rw room
        (sym (take_all ch_capacity (xs ++ x ∷ []) (ground (arith, length-append xs (x ∷ [])))))
  | inr full ↦
      rw full
        (sym (take_append_full ch_capacity xs (x ∷ []) (ground arith) ∙ take_all ch_capacity xs h))
]

round-queue :
    (s : Session) (content : Bytes) (now : ℤ) (p : ℕ)
    → IsSound s
    → member p s.subscribers ≡ true
    → ((pump_round s content now).channels p).ch
      ≡ take ch_capacity ((s.channels p).ch ++ pumped s.mode content ∷ [])
unfolding pump_round pumped
round-queue s content now p v m =
    let noted : Session = record s {
      recorder = add s.recorder event_output (pumped s.mode content) now;
    } in
    broadcast_lem noted (pumped s.mode content)
      (record { distinct = v.distinct; known = v.known; room = v.room }) p
    ∙ rw m (queue_full (s.channels p).ch _ (v.room p))

-- Taking twice.
take_again : (n : ℕ) (xs ys : List Bytes) → take n (take n xs ++ ys) ≡ take n (xs ++ ys)
take_again zero xs ys = refl
take_again (suc n) [] ys = refl
take_again (suc n) (x ∷ xs) ys = ap (◌∷◌ x) (take_again n xs ys)

pump_loop-cons :
    (s : Session) (content : Bytes) (now : ℤ) (reads : List (Bytes × ℤ))
    → pump_loop s ((content, now) ∷ reads) ≡ pump_loop (pump_round s content now) reads
unfolding pump_loop
pump_loop-cons s content now reads = refl

-- The pump records every read, in order, whatever the subscribers do; a subscriber's queue gets the
-- same texts in order, as many as its channel holds.
pub pump_loop_lem :
    (reads : List (Bytes × ℤ)) (s : Session) (p : ℕ)
    → IsSound s
    → member p s.subscribers ≡ true
    → let s' = pump_loop s reads in
      (s'.recorder.events ≡ s.recorder.events ++ map (pumped_event s.mode s.recorder.start) reads)
      × ((s'.channels p).ch ≡ take ch_capacity ((s.channels p).ch ++ texts s.mode reads))
pump_loop_lem [] s p v m =
    unfold pump_loop in
    (sym (append-nil _), sym (rw append-nil (take_all ch_capacity (s.channels p).ch (v.room p))))
pump_loop_lem ((content, now) ∷ reads) s p v m =
    let s1 = pump_round s content now in
    let (same_mode, same_subs, same_start, recorded) = round-same s content now in
    let (events, queue) =
      pump_loop_lem reads s1 p (pump_round-IsSound s content now v) (rw same_subs m) in
    let ahead : take ch_capacity ((s1.channels p).ch ++ texts s.mode reads)
        ≡ take ch_capacity ((s.channels p).ch ++ texts s.mode ((content, now) ∷ reads)) =
      rw (round-queue s content now p v m, take_again ch_capacity, append_assoc) in
    rw (pump_loop-cons s content now reads)
      (events ∙ rw (recorded, same_mode, same_start, append_assoc), queue ∙ rw same_mode ahead)
