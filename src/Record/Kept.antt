-- ===== src/Record/Kept.antt =====
-- A recording against what has happened while it was made.
use mathlib.Core.List.{map-append}
use cternal.Prelude.{
  ℕ, suc, ◌<◌, ◌≡◌, refl, ap, sym, ◌∙◌, arith, true, false, Option-cases, inl, inr, none, some,
  Option, List, [], ◌∷◌, ◌++◌, append_assoc, append-nil, map, Bytes, keep, bytes_eq, length,
  if◌then◌else◌,
}
use cternal.Prelude.Int.{ℤ, pos}
use cternal.Floats.{Floats}
use cternal.Std.Decimal.{format_size}
use cternal.Runtime.{ExecOptions, Reply, gives}
use cternal.Recorder.{
  Event, EventType, Recorder, event_output, event_input, event_resize, is_output, add, new,
}
use cternal.Recorder.Cast.{Json, marshal, idle_limit}
use cternal.Recorder.Player.Pace.{texts}
use cternal.Recorder.Player.Pace.{IsCalm}
use cternal.Recorder.Cast.Timeline.{rows_from}
use cternal.Play.{Decoder, Round, no_error, scanner_limit, run_play}
use cternal.Play.Readback.{Decodes, Fits}
use cternal.Play.Rounds.{run_play-marshal}
use cternal.Saving.{saved, store}
use cternal.Record.{
  TermSize, exec_options, Recording, Happening, resizes, types, says, uint16, terminal_size,
  first_size, happen, happen_all, new_recording, header, run_record,
}

-- The contents of a recording's events of one type.
abbrev pub of_type : EventType → List Event → List Bytes
of_type typ events =
    map (λ (ev : Event). ev.content) (keep (λ (ev : Event). bytes_eq ev.typ typ) events)

-- The sizes that the terminal had.
abbrev pub size_of : Happening → List (ℕ × ℕ)
size_of (resizes size now) = elim (terminal_size size) [ none ↦ [] | some s ↦ s ∷ [] ]
size_of (types content now) = []
size_of (says content now) = []

abbrev pub sizes : List Happening → List (ℕ × ℕ)
sizes [] = []
sizes (h ∷ hs) = size_of h ++ sizes hs

abbrev pub size_text : ℕ × ℕ → Bytes
size_text (w, h) = format_size w h

abbrev pub truncated : ℕ × ℕ → ℕ × ℕ
truncated (w, h) = (uint16 w, uint16 h)

-- A recording that is as true as its terminal's sizes so far.
record IsTrue (r : Recording) (ss : List (ℕ × ℕ)) : Type 0 where
  outputs : of_type event_output r.recorder.events ≡ r.shown
  inputs : of_type event_input r.recorder.events ≡ r.typed
  sizes_told : of_type event_resize r.recorder.events ≡ map size_text ss
  sizes_set : r.resized ≡ map truncated ss

of_type-append :
    (typ : EventType) (xs : List Event) (ev : Event)
    → of_type typ (xs ++ ev ∷ [])
      ≡ of_type typ xs ++ (if bytes_eq ev.typ typ then ev.content ∷ [] else [])
of_type-append typ [] ev = ground arith
of_type-append typ (x ∷ xs) ev = ground (arith, of_type-append typ xs ev)

-- An event of one type behind others, as the contents of each type see it.
same_type :
    (r : Recorder) (typ : EventType) (content : Bytes) (now : ℤ) (cs : List Bytes)
    → bytes_eq typ typ ≡ true
    → of_type typ r.events ≡ cs
    → of_type typ (add r typ content now).events ≡ cs ++ content ∷ []
unfolding add
same_type r typ content now cs e h = of_type-append typ r.events _ ∙ rw (e, h) refl

other_type :
    (r : Recorder) (typ typ' : EventType) (content : Bytes) (now : ℤ) (cs : List Bytes)
    → bytes_eq typ' typ ≡ false
    → of_type typ r.events ≡ cs
    → of_type typ (add r typ' content now).events ≡ cs
unfolding add
other_type r typ typ' content now cs e h = of_type-append typ r.events _ ∙ rw (e, h) (append-nil cs)

happen-IsTrue :
    (r : Recording) (ss : List (ℕ × ℕ)) (h : Happening)
    → IsTrue r ss
    → IsTrue (happen r h) (ss ++ size_of h)
unfolding happen bytes_eq
happen-IsTrue r ss (resizes size now) v = elim (Option-cases (terminal_size size)) [
  | inl e ↦ rw (happen, e, size_of, append-nil ss) v
  | inr ((w, h), e) ↦
      rw (happen, e, size_of)
        (record {
          outputs =
              other_type r.recorder event_output event_resize (format_size w h) now r.shown refl
                v.outputs;
          inputs =
              other_type r.recorder event_input event_resize (format_size w h) now r.typed refl
                v.inputs;
          sizes_told =
              same_type r.recorder event_resize (format_size w h) now (map size_text ss) refl
                v.sizes_told
              ∙ sym (map-append size_text ss ((w, h) ∷ []));
          sizes_set =
              ap (λ (xs : List (ℕ × ℕ)). xs ++ (uint16 w, uint16 h) ∷ []) v.sizes_set
              ∙ sym (map-append truncated ss ((w, h) ∷ []));
        })
]
happen-IsTrue r ss (types [] now) v = rw (append-nil ss) v
happen-IsTrue r ss (types (c ∷ s) now) v = rw (append-nil ss) (record {
  outputs = other_type r.recorder event_output event_input (c ∷ s) now r.shown refl v.outputs;
  inputs = same_type r.recorder event_input (c ∷ s) now r.typed refl v.inputs;
  sizes_told =
      other_type r.recorder event_resize event_input (c ∷ s) now (map size_text ss) refl
        v.sizes_told;
  sizes_set = v.sizes_set;
})
happen-IsTrue r ss (says [] now) v = rw (append-nil ss) v
happen-IsTrue r ss (says (c ∷ s) now) v = rw (append-nil ss) (record {
  outputs = same_type r.recorder event_output (c ∷ s) now r.shown refl v.outputs;
  inputs = other_type r.recorder event_input event_output (c ∷ s) now r.typed refl v.inputs;
  sizes_told =
      other_type r.recorder event_resize event_output (c ∷ s) now (map size_text ss) refl
        v.sizes_told;
  sizes_set = v.sizes_set;
})

happen_all-IsTrue :
    (hs : List Happening) (r : Recording) (ss : List (ℕ × ℕ))
    → IsTrue r ss
    → IsTrue (happen_all r hs) (ss ++ sizes hs)
unfolding happen_all
happen_all-IsTrue [] r ss v = rw (append-nil ss) v
happen_all-IsTrue (h ∷ hs) r ss v =
    rw (← append_assoc ss (size_of h) (sizes hs))
      (happen_all-IsTrue hs (happen r h) (ss ++ size_of h) (happen-IsTrue r ss h v))

-- Whatever happens while a shell is recorded, the recording's output events are the texts that the terminal
-- was shown, its input events are those that the container was sent, each in order, and its resize events
-- tell the sizes that the terminal had, which the container was given as numbers of 16 bits.
pub happen_all_lem :
    (now : ℤ) (hs : List Happening)
    → let r = happen_all (new_recording now) hs in
      (texts r.recorder.events ≡ r.shown)
      × (of_type event_input r.recorder.events ≡ r.typed)
      × (of_type event_resize r.recorder.events ≡ map size_text (sizes hs))
      × (r.resized ≡ map truncated (sizes hs))
unfolding new_recording new is_output
happen_all_lem now hs =
    let v =
      happen_all-IsTrue hs (new_recording now) []
        (record { outputs = refl; inputs = refl; sizes_told = refl; sizes_set = refl }) in
    (v.outputs, v.inputs, v.sizes_told, v.sizes_set)

module _ (fl : Floats) (json : Json fl) (decoder : Decoder fl) (valid : Bytes → Bytes)
    (law : Decodes fl json decoder valid) where
  -- A recorded shell is saved, and the saved file is played: what the terminal is shown is what it was
  -- shown while the shell was recorded, each text made valid UTF-8 by itself. The lines of the file
  -- are of less than 65,536 bytes.
  pub run_play-run_record :
      (exec : Bytes → ExecOptions → Reply ℕ) (strm : ℕ) (write : Bytes → Option Bytes) (id : Bytes)
      (shell : List Bytes) (limit : fl.Float) (size : TermSize) (now : ℤ) (hs : List Happening)
      (content : Bytes) (speed : fl.Float) (rounds : ℕ → Round) (n : ℕ)
      → let events = (happen_all (new_recording now) hs).recorder.events in
        let hdr = header fl json (first_size size) limit in
        let b = run_record fl json (gives exec) write id shell limit size now hs in
        exec id (exec_options shell (first_size size)) ≡ gives strm
        → marshal fl json hdr events ≡ some content
        → write content ≡ none
        → ((l : Bytes)
            → json.encode_header (record hdr { version = pos 2 }) ≡ some l
            → length l < scanner_limit)
        → Fits fl json decoder valid
            (rows_from (idle_limit fl hdr) (pos 0) (pos 0) (keep is_output events))
        → IsCalm (rounds 0).surroundings
        → (b.outcome ≡ saved content (length events))
          × (run_play fl decoder
                (gives (record { content = content; read_error = none }))
                speed
                false
                rounds
                (suc n)
              ≡ some (map valid b.recording.shown, no_error))
  unfolding run_record store
  run_play-run_record exec strm write id shell limit size now hs content speed rounds n opened
        encoded written short fits calm =
      let events = (happen_all (new_recording now) hs).recorder.events in
      let hdr = header fl json (first_size size) limit in
      let played =
        run_play-marshal fl json decoder valid law hdr events content speed rounds n encoded short
          fits calm in
      (
        rw (run_record, opened, encoded, store, written) refl,
        rw (run_record, opened)
            (played
              ∙ ap (λ (ts : List Bytes). some (map valid ts, no_error)) (happen_all_lem now hs).0),
      )
