-- ===== src/Logscast/Playing.antt =====
-- What `play` makes of a cast file that `logscast` has saved.
use cternal.Prelude.{
  ℕ, suc, ◌≤◌, ◌<◌, ◌≡◌, refl, ap, sym, ◌∙◌, Bool, true, false, none, some, List, [], ◌∷◌, ◌++◌,
  append_assoc, map, Bytes, codes, keep, All, length, length-map, Option,
}
use cternal.Prelude.Int.{ℤ, pos}
use cternal.Floats.{Floats}
use cternal.Std.Scan.{IsLine, unlines}
use cternal.Runtime.{gives}
use cternal.Newline.{normalize_lf}
use cternal.Recorder.{Event, event_output, is_output}
use cternal.Recorder.Cast.{Json, marshal, idle_limit}
use cternal.Recorder.Cast.Timeline.{rows_from, file, marshal-file}
use cternal.Recorder.Player.Pace.{IsCalm, texts}
use cternal.Logs.{ParseTime}
use cternal.Logs.Stamps.{Line, IsStamped, event_since}
use cternal.Play.{Decoder, Round, no_error, cannot_load, scanner_limit, run_play}
use cternal.Play.Readback.{Decodes, Fits, lines-parts, file-parts, is_line}
use cternal.Play.Rounds.{run_play-marshal, run_play_too_long}
use cternal.Saving.{saved, store}
use cternal.Logscast.{Flags, Logs, log_limit, header, save, run_logscast}
use cternal.Logscast.Pipeline.{line_of, outputs, run_logscast-save}

-- What the terminal is shown of a line.
abbrev pub shown : Line → Bytes
shown l = normalize_lf (l.text ++ 10 ∷ [])

texts-event_since : (epoch : ℤ) (ls : List Line) → texts (map (event_since epoch) ls) ≡ map shown ls
texts-event_since epoch ls = rw (outputs epoch ls) (contents ls)
  where
    contents :
        (ls : List Line)
        → map (λ (ev : Event). ev.content) (map (event_since epoch) ls) ≡ map shown ls
    contents [] = refl
    contents (l ∷ ls) = ap (◌∷◌ (shown l)) (contents ls)

module _ (fl : Floats) (json : Json fl) (decoder : Decoder fl) (valid : Bytes → Bytes)
    (law : Decodes fl json decoder valid) (parse : ParseTime) (clock : ℕ → ℤ) (l : Line)
    (ls : List Line) (stamped : All (IsStamped parse) (l ∷ ls))
    (fit : All (IsLine log_limit) (map line_of (l ∷ ls))) (logs : Logs)
    (write : Bytes → Option Bytes) (flags : Flags fl) (id : Bytes)
    (given : logs id (record { since = flags.since; follow = flags.follow; timestamps = true })
      ≡ gives (record { content = unlines (map line_of (l ∷ ls)); read_error = none }))
    (content : Bytes) (written : write content ≡ none)
    (encoded : marshal fl json
        (header fl json parse flags.idle_limit)
        (map (event_since l.ts) (l ∷ ls))
      ≡ some content)
    (short : (h : Bytes)
      → json.encode_header (record (header fl json parse flags.idle_limit) { version = pos 2 })
        ≡ some h
      → length h < scanner_limit)
    (speed : fl.Float) (rounds : ℕ → Round) (n : ℕ) where
  run_logscast-saved :
      run_logscast fl json parse (gives logs) write clock flags id ≡ saved content (length (l ∷ ls))
  unfolding save store
  run_logscast-saved =
      run_logscast-save fl json parse clock l ls stamped fit logs write flags id given
      ∙ rw (save, encoded, store, written)
          (ap (saved content) (length-map (event_since l.ts) (l ∷ ls)))

  -- A log whose lines have a time in front of them is saved, and the saved file is played line for line:
  -- what is shown is each line's text behind its time, with CR LF, made valid UTF-8. The lines of the log
  -- are of less than 1 MiB and those of the cast file of less than 65,536 bytes.
  pub run_play-run_logscast :
      Fits fl json decoder valid (
        rows_from
          (idle_limit fl (header fl json parse flags.idle_limit))
          (pos 0)
          (pos 0)
          (keep is_output (map (event_since l.ts) (l ∷ ls))))
      → IsCalm (rounds 0).surroundings
      → (run_logscast fl json parse (gives logs) write clock flags id
          ≡ saved content (length (l ∷ ls)))
        × (run_play fl decoder
              (gives (record { content = content; read_error = none }))
              speed
              false
              rounds
              (suc n)
            ≡ some (map valid (map shown (l ∷ ls)), no_error))
  run_play-run_logscast fits calm = (
    run_logscast-saved,
    run_play-marshal fl json decoder valid law (header fl json parse flags.idle_limit)
          (map (event_since l.ts) (l ∷ ls)) content speed rounds n encoded short fits calm
        ∙ ap (λ (ts : List Bytes). some (map valid ts, no_error)) (texts-event_since l.ts (l ∷ ls)),
  )

  -- A first line of a log whose row in the cast file has 65,536 bytes or more, as one of a log's lines of up
  -- to 1 MiB may have, is saved with no error, and the saved file cannot be played at all.
  pub run_play_long_log :
      (loop : Bool)
      → ((t : fl.Float) (row : Bytes)
          → json.encode_row t event_output (shown l) ≡ some row
          → scanner_limit ≤ length row)
      → (run_logscast fl json parse (gives logs) write clock flags id
          ≡ saved content (length (l ∷ ls)))
        × (run_play fl decoder
              (gives (record { content = content; read_error = none }))
              speed
              loop
              rounds
              n
            ≡ some ([], cannot_load (codes "load cast: bufio.Scanner: token too long")))
  unfolding rows_from
  run_play_long_log loop long =
      let hdr = header fl json parse flags.idle_limit in
      let limit = idle_limit fl hdr in
      let rows = rows_from limit (pos 0) (pos 0) (map (event_since l.ts) (l ∷ ls)) in
      let as_file : file fl json hdr rows ≡ some content =
        rw (outputs l.ts (l ∷ ls)) at
          (sym (marshal-file fl json hdr (map (event_since l.ts) (l ∷ ls))) ∙ encoded) in
      let (h, body, header_given, body_given, joined) =
        file-parts fl json hdr rows content as_file in
      let (row, rest, row_given, rest_given, row_joined) =
        lines-parts fl json _ _ body body_given in
      let whole : content ≡ unlines (h ∷ []) ++ (row ++ 10 ∷ rest) =
        joined
        ∙ ap (λ x. h ++ 10 ∷ x) row_joined
        ∙ sym (append_assoc h (10 ∷ []) (row ++ 10 ∷ rest)) in
      (
        run_logscast-saved,
        rw whole (
            run_play_too_long fl decoder (h ∷ []) row rest speed loop rounds n none
              (
                is_line fl json decoder valid law h (law.header _ h header_given)
                    (short h header_given),
                tt,
              )
              (law.row _ _ _ row row_given).0.no_break (long _ row row_given)),
      )
