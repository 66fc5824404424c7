-- ===== src/Api/Socket/Tail/Moves.antt =====
-- What the steps of a connection to a logs session keep.
use mathlib.Core.Path.{subst}
use mathlib.Core.List.{map-append}
use mathlib.Core.Option.{some-injective}
use cternal.Prelude.{
  ◌≤◌, ◌≡◌, refl, sym, ap, ◌∙◌, arith, Bool-cases, inl, inr, ◌⊎◌, some, List, [], ◌∷◌, ◌++◌, Bytes,
  ltb, length, map, bytes_eq, false, append-nil, append_assoc, length-append,
}
use cternal.Prelude.Int.{ℤ}
use cternal.Recorder.{
  Recorder, Event, EventType, event_output, event_input, event_resize, is_output, since, add,
}
use cternal.Recorder.Player.Pace.{texts}
use cternal.Logs.{ParseTime, log_line}
use cternal.Api.Socket.{Message, output}
use cternal.Api.Socket.Attach.{Reader, reading, Writer, writing, done, write_capacity}
use cternal.Api.Socket.Tail.Events.{texts-output, texts-other, log_line-event}
use cternal.Api.Socket.Tail.{
  Scanner, scanning, telling, over, Tail, new_tail, TailMove, hears, hears_input, hears_resize,
  note_event, hears_no_more, leaves, scans, scan_ends, tells, gives_up, writes, write_fails, ends,
  tail_reader, take_line, tail_source, tail_writer, tail_move,
}

abbrev pub in_hand : Scanner → List Message
in_hand scanning = []
in_hand (telling text) = output text ∷ []
in_hand over = []

-- The connection has added to the recording what it has taken, and to what is sent.
pub record IsSound (recorder : Recorder) (t : Tail) : Type 0 where
  pub whole : t.writer ≡ writing → t.sent ++ (t.write_ch ++ in_hand t.source) ≡ map output t.taken
  pub prefix : (rest : List Message) × (t.sent ++ rest ≡ map output t.taken)
  pub bound : length t.write_ch ≤ write_capacity
  pub recorded :
      (evs : List Event) × (t.log.recorder.events ≡ recorder.events ++ evs) × (texts evs ≡ t.taken)

pub new_tail-IsSound : (recorder : Recorder) → IsSound recorder (new_tail recorder)
unfolding new_tail
new_tail-IsSound recorder = record {
  whole = λ _. refl;
  prefix = ([], refl);
  bound = omega arith;
  recorded = ([], sym (append-nil recorder.events), refl);
}

Writer-cases : (w : Writer) → (w ≡ writing) ⊎ (w ≡ done)
Writer-cases writing = inl refl
Writer-cases done = inr refl

module _ (parse : ParseTime) (recorder : Recorder) where
  same : {t t' : Tail} → some t ≡ some t' → IsSound recorder t → IsSound recorder t'
  same {t} {t'} p v = subst (IsSound recorder) (some-injective _ _ p) v

  take_line-IsSound :
      (t : Tail) (line : Bytes) (now : ℤ)
      → t.source ≡ scanning
      → IsSound recorder t
      → IsSound recorder (take_line parse t line now)
  unfolding take_line
  take_line-IsSound t line now at v =
      let text = (log_line parse t.log line now).1 in
      let msg = output text ∷ [] in
      let (ev, added, said, shown) = log_line-event parse t.log line now in
      let (evs, kept, all_texts) = v.recorded in
      let heard : map output (t.taken ++ text ∷ []) ≡ map output t.taken ++ msg =
        map-append output t.taken (text ∷ []) in
      record {
        whole = λ w.
            ground
              (arith, v.whole w, heard, append-nil t.write_ch, append_assoc t.sent t.write_ch msg);
        prefix = (
          v.prefix.0 ++ msg,
          ground (arith, v.prefix.1, heard, append_assoc t.sent v.prefix.0 msg),
        );
        bound = v.bound;
        recorded = (
          evs ++ ev ∷ [],
          added
              ∙ ap (λ (xs : List Event). xs ++ ev ∷ []) kept
              ∙ append_assoc recorder.events evs (ev ∷ []),
          texts-output evs ev shown
              ∙ ap (λ (xs : List Bytes). xs ++ ev.content ∷ []) all_texts
              ∙ ap (λ c. t.taken ++ c ∷ []) said,
        );
      }

  note_event-IsSound :
      (t : Tail) (typ : EventType) (content : Bytes) (now : ℤ)
      → bytes_eq typ event_output ≡ false
      → IsSound recorder t
      → IsSound recorder (note_event t typ content now)
  unfolding note_event add is_output
  note_event-IsSound t typ content now other v =
      let (evs, kept, all_texts) = v.recorded in
      let ev : Event = record {
        time = since now t.log.recorder.start;
        typ = typ;
        content = content;
      } in
      record {
        whole = v.whole;
        prefix = v.prefix;
        bound = v.bound;
        recorded = (
          evs ++ ev ∷ [],
          ap (λ (xs : List Event). xs ++ ev ∷ []) kept ∙ append_assoc recorder.events evs (ev ∷ []),
          texts-other evs ev other ∙ all_texts,
        );
      }

  reader-IsSound :
      (t t' : Tail) (m : TailMove) (r : Reader)
      → IsSound recorder t
      → tail_reader t m r ≡ some t'
      → IsSound recorder t'
  unfolding tail_reader bytes_eq
  reader-IsSound t t' (hears_input content now) reading v p =
      same p (note_event-IsSound t event_input content now refl v)
  reader-IsSound t t' (hears_resize content now) reading v p =
      same p (note_event-IsSound t event_resize content now refl v)
  reader-IsSound t t' m r v p =
      let e : record t { reader = t'.reader } ≡ t' = ground arith in
      subst (IsSound recorder) e
        (record { whole = v.whole; prefix = v.prefix; bound = v.bound; recorded = v.recorded })

  source-IsSound :
      (t t' : Tail) (m : TailMove) (s : Scanner)
      → t.source ≡ s
      → IsSound recorder t
      → tail_source parse t m s ≡ some t'
      → IsSound recorder t'
  unfolding tail_source
  source-IsSound t t' (scans line now) scanning at v p = same p (take_line-IsSound t line now at v)
  source-IsSound t t' scan_ends scanning at v p = same p (record {
    whole = λ w. ap (λ (s : Scanner). t.sent ++ (t.write_ch ++ in_hand s)) (sym at) ∙ v.whole w;
    prefix = v.prefix;
    bound = v.bound;
    recorded = v.recorded;
  })
  source-IsSound t t' tells (telling text) at v p =
      let whole : t.writer ≡ writing
          → t.sent ++ (t.write_ch ++ output text ∷ []) ≡ map output t.taken =
        λ w. ap (λ (s : Scanner). t.sent ++ (t.write_ch ++ in_hand s)) (sym at) ∙ v.whole w in
      elim (Bool-cases (ltb (length t.write_ch) write_capacity)) [
        | inr full ↦ absurd (let p' = rw full at p in cc)
        | inl room ↦ same (rw room at p) (record {
          whole = λ w. ground (arith, whole w, append-nil (t.write_ch ++ output text ∷ []));
          prefix = v.prefix;
          bound = ground (arith, length-append t.write_ch (output text ∷ []));
          recorded = v.recorded;
        })
      ]
  source-IsSound t t' gives_up (telling text) at v p = elim (Writer-cases t.writer) [
    | inl w ↦ absurd (let p' = rw w at p in cc)
    | inr w ↦ same (rw w at p) (record {
      whole = λ w'. ground arith;
      prefix = v.prefix;
      bound = v.bound;
      recorded = v.recorded;
    })
  ]
  source-IsSound t t' m s at v p = absurd (ground arith)

  writer-IsSound :
      (t t' : Tail) (m : TailMove) (w : Writer) (ch : List Message) (s : Scanner)
      → t.writer ≡ w
      → t.write_ch ≡ ch
      → IsSound recorder t
      → tail_writer t m w ch s ≡ some t'
      → IsSound recorder t'
  unfolding tail_writer
  writer-IsSound t t' writes writing (msg ∷ rest) s at c v p =
      let all_of : t.sent ++ msg ∷ [] ++ (rest ++ in_hand t.source) ≡ map output t.taken =
        append_assoc t.sent (msg ∷ []) (rest ++ in_hand t.source)
        ∙ ap (λ xs. t.sent ++ (xs ++ in_hand t.source)) (sym c)
        ∙ v.whole at in
      same p (record {
        whole = λ w. all_of;
        prefix = (rest ++ in_hand t.source, all_of);
        bound = ground (arith, v.bound);
        recorded = v.recorded;
      })
  writer-IsSound t t' write_fails writing (msg ∷ rest) s at c v p = same p (record {
    whole = λ w. ground arith;
    prefix = v.prefix;
    bound = ground (arith, v.bound);
    recorded = v.recorded;
  })
  writer-IsSound t t' ends writing [] over at c v p = same p (record {
    whole = λ w. ground arith;
    prefix = v.prefix;
    bound = v.bound;
    recorded = v.recorded;
  })
  writer-IsSound t t' m w ch s at c v p = absurd (ground arith)

  pub tail_move-IsSound :
      (t t' : Tail) (m : TailMove)
      → IsSound recorder t
      → tail_move parse t m ≡ some t'
      → IsSound recorder t'
  unfolding tail_move
  tail_move-IsSound t t' hears v p = reader-IsSound t t' hears t.reader v p
  tail_move-IsSound t t' (hears_input content now) v p =
      reader-IsSound t t' (hears_input content now) t.reader v p
  tail_move-IsSound t t' (hears_resize content now) v p =
      reader-IsSound t t' (hears_resize content now) t.reader v p
  tail_move-IsSound t t' hears_no_more v p = reader-IsSound t t' hears_no_more t.reader v p
  tail_move-IsSound t t' leaves v p = reader-IsSound t t' leaves t.reader v p
  tail_move-IsSound t t' (scans line now) v p =
      source-IsSound t t' (scans line now) t.source refl v p
  tail_move-IsSound t t' scan_ends v p = source-IsSound t t' scan_ends t.source refl v p
  tail_move-IsSound t t' tells v p = source-IsSound t t' tells t.source refl v p
  tail_move-IsSound t t' gives_up v p = source-IsSound t t' gives_up t.source refl v p
  tail_move-IsSound t t' writes v p =
      writer-IsSound t t' writes t.writer t.write_ch t.source refl refl v p
  tail_move-IsSound t t' write_fails v p =
      writer-IsSound t t' write_fails t.writer t.write_ch t.source refl refl v p
  tail_move-IsSound t t' ends v p =
      writer-IsSound t t' ends t.writer t.write_ch t.source refl refl v p
