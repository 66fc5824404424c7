-- ===== src/Play/Readback.antt =====
-- What `play` reads of a file that `Marshal` has written.
use mathlib.Core.Option.{some-injective}
use cternal.Prelude.{
  ◌<◌, ◌≡◌, ◌≢◌, refl, ap, sym, ◌∙◌, true, false, Option, none, some, List, [], ◌∷◌, ◌++◌, map,
  Bytes, All, length, is_empty, bytes_eq_iff, bytes_eq_refl,
}
use cternal.Prelude.Int.{ℤ, pos}
use cternal.Floats.{Floats}
use cternal.Std.{trim_space}
use cternal.Std.Scan.{drop_cr, scan_lines, scan_error, IsLine, unlines, scan_lines-unlines}
use cternal.Runtime.{gives}
use cternal.Recorder.{Event, EventType, event_output, is_output}
use cternal.Recorder.Cast.{Header, Json, ◌>>=◌, advance}
use cternal.Recorder.Cast.Timeline.{Row, rows_from, lines, file}
use cternal.Recorder.Player.Pace.{texts}
use cternal.Play.{Decoder, scanner_limit, parse_row, load_lines, load_cast}

-- A text of JSON as json.Marshal gives it: one line that is not blank, with no space around it.
pub record IsJsonText (l : Bytes) : Type 0 where
  pub no_break : All (λ c. c ≢ 10) l
  pub no_return : drop_cr l ≡ l
  pub trimmed : trim_space l ≡ l
  pub not_empty : is_empty l ≡ false

-- encoding/json: a row that is encoded is decoded to the same number and to the same texts, in which
-- json.Marshal has made what is no UTF-8 valid.
pub record Decodes (fl : Floats) (json : Json fl) (decoder : Decoder fl) (valid : Bytes → Bytes)
    : Type 0 where
  pub header : (h : Header fl) (l : Bytes) → json.encode_header h ≡ some l → IsJsonText l
  pub row :
      (t : fl.Float) (typ : EventType) (content l : Bytes)
      → json.encode_row t typ content ≡ some l
      → IsJsonText l
        × ((a : Bytes) × (b : Bytes) × (c : Bytes) × (decoder.raw_messages l
              ≡ some (a ∷ b ∷ c ∷ []))
            × (decoder.number a ≡ some t)
            × (decoder.text b ≡ some (valid typ))
            × (decoder.text c ≡ some (valid content)))
  pub valid_output : valid event_output ≡ event_output

bind_some {ℓ κ} :
    {A : Type ℓ} {B : Type κ} (m : Option A) (f : A → Option B) (b : B)
    → (m >>= f) ≡ some b
    → (a : A) × (m ≡ some a) × (f a ≡ some b)
bind_some none f b e = cc
bind_some (some a) f b e = (a, refl, e)

-- What the parts of a file are, where none of them is an error.
module _ (fl : Floats) (json : Json fl) where
  pub lines-parts :
      (r : Row) (rows : List Row) (text : Bytes)
      → lines fl json (r ∷ rows) ≡ some text
      → (line : Bytes) × (rest : Bytes) × (json.encode_row
            (fl.seconds_of r.time)
            r.event.typ
            r.event.content
          ≡ some line)
        × (lines fl json rows ≡ some rest)
        × (text ≡ line ++ 10 ∷ rest)
  unfolding lines
  lines-parts r rows text e =
      let (line, encoded, e') = bind_some _ _ text e in
      let (rest, written, e'') = bind_some _ _ text e' in
      (line, rest, encoded, written, sym (some-injective _ _ e''))

  pub file-parts :
      (hdr : Header fl) (rows : List Row) (text : Bytes)
      → file fl json hdr rows ≡ some text
      → (line : Bytes) × (rest : Bytes) × (json.encode_header (record hdr { version = pos 2 })
          ≡ some line)
        × (lines fl json rows ≡ some rest)
        × (text ≡ line ++ 10 ∷ rest)
  unfolding file
  file-parts hdr rows text e =
      let (line, encoded, e') = bind_some _ _ text e in
      let (rest, written, e'') = bind_some _ _ text e' in
      (line, rest, encoded, written, sym (some-injective _ _ e''))

module _ (fl : Floats) (json : Json fl) (decoder : Decoder fl) (valid : Bytes → Bytes) where
  -- The event that is read of a row.
  abbrev pub read_back : Row → Event
  read_back r = record {
    time = fl.duration_of (fl.seconds_of r.time);
    typ = valid r.event.typ;
    content = valid r.event.content;
  }

  -- Each line of a file fits the scanner's buffer.
  abbrev pub Fits : List Row → Type 0
  Fits rows =
      All
        (λ (r : Row).
          (l : Bytes)
          → json.encode_row (fl.seconds_of r.time) r.event.typ r.event.content ≡ some l
          → length l < scanner_limit)
        rows

  module _ (law : Decodes fl json decoder valid) where
    parse_row-row :
        (r : Row) (l : Bytes)
        → json.encode_row (fl.seconds_of r.time) r.event.typ r.event.content ≡ some l
        → parse_row fl decoder l ≡ some (read_back r)
    unfolding parse_row
    parse_row-row r l e =
        let (text, (a, b, c, parts, number, typ, content)) = law.row _ _ _ l e in
        rw (parse_row, parts, number, typ, content) refl

    load_lines-row :
        (r : Row) (l : Bytes) (ls : List Bytes)
        → json.encode_row (fl.seconds_of r.time) r.event.typ r.event.content ≡ some l
        → load_lines fl decoder false (l ∷ ls) ≡ read_back r ∷ load_lines fl decoder false ls
    unfolding load_lines
    load_lines-row r l ls e =
        let text = (law.row _ _ _ l e).0 in
        rw (load_lines, text.trimmed, text.not_empty, text.trimmed, parse_row-row r l e) refl

    pub is_line : (l : Bytes) → IsJsonText l → length l < scanner_limit → IsLine scanner_limit l
    is_line l text h = record { no_break = text.no_break; no_return = text.no_return; fits = h }

    load_lines-lines :
        (rows : List Row) (text : Bytes)
        → lines fl json rows ≡ some text
        → Fits rows
        → (ls : List Bytes) × (text ≡ unlines ls)
          × All (IsLine scanner_limit) ls
          × (load_lines fl decoder false ls ≡ map read_back rows)
    unfolding lines load_lines
    load_lines-lines [] text e h = ([], sym (some-injective _ _ e), tt, refl)
    load_lines-lines (r ∷ rows) text e (h, hs) =
        let (line, rest, encoded, written, e') = lines-parts fl json r rows text e in
        let (ls, joined, are_lines, read) = load_lines-lines rows rest written hs in
        (
          line ∷ ls,
          e' ∙ ap (λ x. line ++ 10 ∷ x) joined,
          (is_line line (law.row _ _ _ line encoded).0 (h line encoded), are_lines),
          load_lines-row r line ls encoded ∙ ap (◌∷◌ (read_back r)) read,
        )

    pub load_cast-file :
        (hdr : Header fl) (rows : List Row) (text : Bytes)
        → file fl json hdr rows ≡ some text
        → ((l : Bytes)
            → json.encode_header (record hdr { version = pos 2 }) ≡ some l
            → length l < scanner_limit)
        → Fits rows
        → load_cast fl decoder (gives (record { content = text; read_error = none }))
          ≡ gives (map read_back rows)
    unfolding file load_cast load_lines scan_error
    load_cast-file hdr rows text e short h =
        let (line, rest, encoded, written, e') = file-parts fl json hdr rows text e in
        let (ls, joined, are_lines, read) = load_lines-lines rows rest written h in
        let header_text = law.header _ line encoded in
        let whole : text ≡ unlines (line ∷ ls) = e' ∙ ap (λ x. line ++ 10 ∷ x) joined in
        let scanned : scan_lines scanner_limit text
            ≡ record { lines = line ∷ ls; too_long = false } =
          rw whole (
            scan_lines-unlines scanner_limit (line ∷ ls)
              (is_line line header_text (short line encoded), are_lines)) in
        rw
          (
            load_cast, scan_error, scanned, scanned, load_lines, header_text.trimmed,
            header_text.not_empty, read,
          )
          refl

    output_back :
        (ev : Event) (t : ℤ)
        → is_output ev ≡ true
        → is_output (read_back (record { time = t; event = ev })) ≡ true
    unfolding is_output
    output_back ev t out =
        let typed : ev.typ ≡ event_output = (bytes_eq_iff ev.typ event_output).0 out in
        rw (typed, law.valid_output) (bytes_eq_refl event_output)

    pub texts-read_back :
        (limit c p : ℤ) (evs : List Event)
        → All (λ ev. is_output ev ≡ true) evs
        → texts (map read_back (rows_from limit c p evs))
          ≡ map valid (map (λ (ev : Event). ev.content) evs)
    unfolding rows_from
    texts-read_back limit c p [] h = refl
    texts-read_back limit c p (ev ∷ evs) (out, outs) =
        let c' = advance limit c p ev.time in
        rw (output_back ev c' out)
          (ap (◌∷◌ (valid ev.content)) (texts-read_back limit c' ev.time evs outs))
