-- ===== src/Api/Socket/Messages.antt =====
-- What the messages of a client do to a session, and what a client is sent when it connects.
use cternal.Prelude.{
  ℕ, suc, ◌≡◌, refl, sym, ap, ◌∙◌, arith, Bool, true, false, Bool-cases, Option-cases, inl, inr,
  none, some, List, [], ◌∷◌, ◌++◌, Bytes, codes, bytes_eq, bytes_eq_refl, ◌==◌, ==_iff,
  if◌then◌else◌, append-nil, append_assoc,
}
use cternal.Prelude.Int.{ℤ}
use cternal.Std.Decimal.{format_size}
use cternal.Recorder.{Event, Recorder, event_input, event_resize, is_output, add}
use cternal.Recorder.Reading.{all-events}
use cternal.Session.{Session}
use cternal.Api.{Server, StreamCall, closes, writes, resizes, recorded}
use cternal.Api.Socket.{Message, output, Wire, note, dispatch_message, flush, flush_events}

-- The outputs of a recording, as messages.
unfoldable pub outputs : List Event → List Message
outputs [] = []
outputs (ev ∷ evs) = elim (is_output ev) [
  | false ↦ outputs evs
  | true ↦ output ev.content ∷ outputs evs
]

-- What comes before the first write that fails.
unfoldable pub until : (ℕ → Bool) → ℕ → List Message → List Message
until write_fails i [] = []
until write_fails i (m ∷ ms) =
    let rest = until write_fails (suc i) ms in if write_fails i then [] else m ∷ rest

flush-until :
    (write_fails : ℕ → Bool) (i : ℕ) (evs : List Event) (sent : List Message)
    → flush write_fails i evs sent ≡ sent ++ until write_fails i (outputs evs)
unfolding flush outputs until
flush-until write_fails i [] sent = sym (append-nil sent)
flush-until write_fails i (ev ∷ evs) sent = elim (Bool-cases (is_output ev)) [
  | inl e ↦ elim (Bool-cases (write_fails i)) [
    | inl bad ↦ rw (flush, outputs, e, until, bad) (sym (append-nil sent))
    | inr good ↦
        rw (flush, outputs, e, until, good)
          (flush-until write_fails (suc i) evs (sent ++ output ev.content ∷ [])
            ∙ append_assoc sent (output ev.content ∷ []) (until write_fails (suc i) (outputs evs)))
  ]
  | inr e ↦ rw (flush, outputs, e) (flush-until write_fails i evs sent)
]

recorded-events : (r : Recorder) → recorded r ≡ r.events
recorded-events r = let (s, e, f) = all-events r in rw (recorded, e) f

-- A client that connects is sent the outputs that were recorded, all of them in their order, up to the first that
-- cannot be sent.
pub flush_events-until :
    (write_fails : ℕ → Bool) (sess : Session)
    → flush_events write_fails sess ≡ until write_fails 0 (outputs sess.recorder.events)
unfolding flush_events
flush_events-until write_fails sess =
    flush-until write_fails 0 (recorded sess.recorder) []
    ∙ ap (λ evs. until write_fails 0 (outputs evs)) (recorded-events sess.recorder)

-- The texts of the input events of a recording; the texts that a stream was asked to write.
pub inputs : List Event → List Bytes
inputs [] = []
inputs (ev ∷ evs) =
    let rest = inputs evs in if bytes_eq ev.typ event_input then ev.content ∷ rest else rest

pub written : ℕ → List StreamCall → List Bytes
written st [] = []
written st (writes u content ∷ cs) =
    let rest = written st cs in if u == st then content ∷ rest else rest
written st (closes u ∷ cs) = written st cs
written st (resizes u w h ∷ cs) = written st cs

-- The input that a client's message holds.
pub typed : Wire → Bytes → List Bytes
typed wire raw = elim (wire.decode_type raw) [
  | none ↦ []
  | some typ ↦
      if bytes_eq typ (codes "input")
      then elim (wire.decode_input raw) [ none ↦ [] | some content ↦ content ∷ [] ]
      else []
]

pub all_typed : Wire → List (Bytes × ℤ) → List Bytes
all_typed wire [] = []
all_typed wire ((raw, now) ∷ raws) = typed wire raw ++ all_typed wire raws

-- The messages of a client, with the times at which they are read.
pub dispatch_all : Wire → Server → ℕ → List (Bytes × ℤ) → Server
dispatch_all wire s p [] = s
dispatch_all wire s p ((raw, now) ∷ raws) =
    dispatch_all wire (dispatch_message wire s raw p now) p raws

inputs-append : (evs more : List Event) → inputs (evs ++ more) ≡ inputs evs ++ inputs more
unfolding inputs
inputs-append [] more = refl
inputs-append (ev ∷ evs) more = ground (arith, inputs-append evs more)

written-append :
    (st : ℕ) (cs more : List StreamCall)
    → written st (cs ++ more) ≡ written st cs ++ written st more
unfolding written
written-append st [] more = refl
written-append st (writes u content ∷ cs) more = ground (arith, written-append st cs more)
written-append st (closes u ∷ cs) more = written-append st cs more
written-append st (resizes u w h ∷ cs) more = written-append st cs more

-- What a message notes: an event of a type and text, and the call of the session's stream.
note_lem :
    (s : Server) (p st : ℕ) (typ content : Bytes) (now : ℤ) (call : ℕ → StreamCall)
    → (s.heap p).stream ≡ some st
    → let s' = note s p typ content now call in
      (inputs (s'.heap p).recorder.events
        ≡ inputs (s.heap p).recorder.events
          ++ (if bytes_eq typ event_input then content ∷ [] else []))
      × (written st s'.calls ≡ written st s.calls ++ written st (call st ∷ []))
      × ((s'.heap p).stream ≡ some st)
unfolding note add
note_lem s p st typ content now call e =
    let own : (p == p) ≡ true = (==_iff p p).1 refl in
    rw (own, e)
      (
        inputs-append (s.heap p).recorder.events _ ∙ unfold inputs in refl,
        written-append st s.calls (call st ∷ []),
        refl,
      )

note_input :
    (s : Server) (p st : ℕ) (content : Bytes) (now : ℤ)
    → (s.heap p).stream ≡ some st
    → let s' = note s p event_input content now (λ st. writes st content) in
      (inputs (s'.heap p).recorder.events ≡ inputs (s.heap p).recorder.events ++ content ∷ [])
      × (written st s'.calls ≡ written st s.calls ++ content ∷ [])
      × ((s'.heap p).stream ≡ some st)
note_input s p st content now e =
    let (i, w, k) = note_lem s p st event_input content now (λ st. writes st content) e in
    (
      i ∙ rw (bytes_eq_refl event_input) refl,
      w ∙ unfold written in rw ((==_iff st st).1 refl) refl,
      k,
    )

note_resize :
    (s : Server) (p st cols rows : ℕ) (now : ℤ)
    → (s.heap p).stream ≡ some st
    → let s' = note s p event_resize (format_size cols rows) now (λ st. resizes st cols rows) in
      (inputs (s'.heap p).recorder.events ≡ inputs (s.heap p).recorder.events ++ [])
      × (written st s'.calls ≡ written st s.calls ++ [])
      × ((s'.heap p).stream ≡ some st)
unfolding bytes_eq written
note_resize s p st cols rows now e =
    note_lem s p st event_resize (format_size cols rows) now (λ st. resizes st cols rows) e

-- What a session with a stream is told by one message.
abbrev Told : Wire → ℕ → ℕ → Server → Server → Bytes → Type 0
Told wire p st s s' raw =
    (inputs (s'.heap p).recorder.events ≡ inputs (s.heap p).recorder.events ++ typed wire raw)
    × (written st s'.calls ≡ written st s.calls ++ typed wire raw)
    × ((s'.heap p).stream ≡ some st)

dispatch_message-Told :
    (wire : Wire) (s : Server) (p st : ℕ) (raw : Bytes) (now : ℤ)
    → (s.heap p).stream ≡ some st
    → Told wire p st s (dispatch_message wire s raw p now) raw
unfolding dispatch_message typed note
dispatch_message-Told wire s p st raw now e =
    let none_typed : (inputs (s.heap p).recorder.events ≡ inputs (s.heap p).recorder.events ++ [])
        × (written st s.calls ≡ written st s.calls ++ [])
        × ((s.heap p).stream ≡ some st) =
      (sym (append-nil _), sym (append-nil _), e) in
    elim (Option-cases (wire.decode_type raw)) [
      | inl bad ↦ rw (dispatch_message, typed, bad) none_typed
      | inr (typ, d) ↦ elim (Bool-cases (bytes_eq typ (codes "input"))) [
        | inl is_input ↦ elim (Option-cases (wire.decode_input raw)) [
          | inl bad ↦ rw (dispatch_message, typed, d, is_input, bad) none_typed
          | inr (content, c) ↦
              rw (dispatch_message, typed, d, is_input, c) (note_input s p st content now e)
        ]
        | inr not_input ↦ elim (Bool-cases (bytes_eq typ (codes "resize"))) [
          | inl is_resize ↦ elim (Option-cases (wire.decode_resize raw)) [
            | inl bad ↦ rw (dispatch_message, typed, d, not_input, is_resize, bad) none_typed
            | inr ((cols, rows), c) ↦
                rw (dispatch_message, typed, d, not_input, is_resize, c)
                  (note_resize s p st cols rows now e)
          ]
          | inr other ↦ rw (dispatch_message, typed, d, not_input, other) none_typed
        ]
      ]
    ]

-- All that a client types into a session with a stream is recorded as input and written to the stream,
-- in its order, and nothing else is, whatever other messages come between.
pub dispatch_all_lem :
    (wire : Wire) (raws : List (Bytes × ℤ)) (s : Server) (p st : ℕ)
    → (s.heap p).stream ≡ some st
    → let s' = dispatch_all wire s p raws in
      (inputs (s'.heap p).recorder.events
        ≡ inputs (s.heap p).recorder.events ++ all_typed wire raws)
      × (written st s'.calls ≡ written st s.calls ++ all_typed wire raws)
unfolding dispatch_all all_typed
dispatch_all_lem wire [] s p st e = (sym (append-nil _), sym (append-nil _))
dispatch_all_lem wire ((raw, now) ∷ raws) s p st e =
    let (i, w, e') = dispatch_message-Told wire s p st raw now e in
    let (is, ws) = dispatch_all_lem wire raws (dispatch_message wire s raw p now) p st e' in
    (
      is ∙ rw i (append_assoc _ (typed wire raw) (all_typed wire raws)),
      ws ∙ rw w (append_assoc _ (typed wire raw) (all_typed wire raws)),
    )
