-- ===== src/Logscast/Pipeline.antt =====
-- What becomes of a log: its cast file, and whether `play` can play that.
use cternal.Prelude.{
  ℕ, suc, ◌≡◌, refl, ap, ◌∙◌, true, Option, none, List, [], ◌∷◌, ◌++◌, map, Bytes, bytes_eq, keep,
  All, length, length-map,
}
use cternal.Prelude.Int.{ℤ, pos, ◌≤ℤ◌}
use cternal.Floats.{Floats}
use cternal.Std.Scan.{IsLine, unlines, scan_error, scan_lines-unlines}
use cternal.Runtime.{gives}
use cternal.Recorder.{is_output, new}
use cternal.Recorder.Cast.{Json, idle_limit}
use cternal.Recorder.Cast.Timeline.{Row, Ascending, Paced, file, marshal-Paced}
use cternal.Logs.{ParseTime, Reading, log_lines}
use cternal.Logs.Stamps.{Line, IsStamped, raw, event_since, log_lines_lem}
use cternal.Saving.{store}
use cternal.Logscast.{Flags, Logs, log_limit, at_times, header, record_log, save, run_logscast}

abbrev pub line_of : Line → Bytes
line_of l = l.stamp ++ 32 ∷ l.text

-- Lines that are read at the clock's times from one of them on.
abbrev timed : (ℕ → ℤ) → ℕ → List Line → List Line
timed clock i [] = []
timed clock i (l ∷ ls) = record l { now = clock i } ∷ timed clock (suc i) ls

timed-raw :
    (clock : ℕ → ℤ) (i : ℕ) (ls : List Line)
    → at_times clock i (map line_of ls) ≡ map raw (timed clock i ls)
timed-raw clock i [] = refl
timed-raw clock i (l ∷ ls) = ap (◌∷◌ (line_of l, clock i)) (timed-raw clock (suc i) ls)

timed-IsStamped :
    (parse : ParseTime) (clock : ℕ → ℤ) (i : ℕ) (ls : List Line)
    → All (IsStamped parse) ls
    → All (IsStamped parse) (timed clock i ls)
timed-IsStamped parse clock i [] h = tt
timed-IsStamped parse clock i (l ∷ ls) (v, vs) = (
  record { one_word = v.one_word; given = v.given; parsed = v.parsed; nonzero = v.nonzero },
  timed-IsStamped parse clock (suc i) ls vs,
)

timed-event_since :
    (epoch : ℤ) (clock : ℕ → ℤ) (i : ℕ) (ls : List Line)
    → map (event_since epoch) (timed clock i ls) ≡ map (event_since epoch) ls
timed-event_since epoch clock i [] = refl
timed-event_since epoch clock i (l ∷ ls) =
    ap (◌∷◌ (event_since epoch l)) (timed-event_since epoch clock (suc i) ls)

pub outputs :
    (epoch : ℤ) (ls : List Line)
    → keep is_output (map (event_since epoch) ls) ≡ map (event_since epoch) ls
unfolding is_output bytes_eq
outputs epoch [] = refl
outputs epoch (l ∷ ls) = ap (◌∷◌ (event_since epoch l)) (outputs epoch ls)

module _ (fl : Floats) (json : Json fl) (parse : ParseTime) (clock : ℕ → ℤ) (l : Line)
    (ls : List Line) (stamped : All (IsStamped parse) (l ∷ ls))
    (fit : All (IsLine log_limit) (map line_of (l ∷ ls))) where
  -- The events of a log do not depend on when it is read.
  record_log-unlines :
      record_log fl json parse clock (unlines (map line_of (l ∷ ls)))
      ≡ map (event_since l.ts) (l ∷ ls)
  unfolding record_log
  record_log-unlines =
      let start : Reading = record { epoch = pos 0; recorder = new (clock 0) } in
      rw (record_log, scan_lines-unlines log_limit (map line_of (l ∷ ls)) fit)
        (ap (λ (xs : List (Bytes × ℤ)). (log_lines parse start xs).recorder.events)
            (timed-raw clock 1 (l ∷ ls))
          ∙ log_lines_lem parse (record l { now = clock 1 }) (timed clock 2 ls) (clock 0)
              (timed-IsStamped parse clock 1 (l ∷ ls) stamped)
          ∙ timed-event_since l.ts clock 1 (l ∷ ls))

  module _ (logs : Logs) (write : Bytes → Option Bytes) (flags : Flags fl) (id : Bytes)
      (given : logs id (record { since = flags.since; follow = flags.follow; timestamps = true })
        ≡ gives (record { content = unlines (map line_of (l ∷ ls)); read_error = none })) where
    pub run_logscast-save :
        run_logscast fl json parse (gives logs) write clock flags id
        ≡ save fl json parse write flags.idle_limit (map (event_since l.ts) (l ∷ ls))
    unfolding run_logscast scan_error
    run_logscast-save =
        rw
          (run_logscast, given, scan_error, scan_lines-unlines log_limit (map line_of (l ∷ ls)) fit)
          (ap (save fl json parse write flags.idle_limit) record_log-unlines)

    -- A log of lines of less than 1 MiB, each with a time in front of it that is not before the one of
    -- the line before, is saved as a cast file with a row for each line: its text behind the time, with
    -- CR LF, as far behind the row before as the times say, or by the idle limit if that is less. When the
    -- log was read does not matter. The number of lines is reported.
    pub run_logscast_lem :
        let events = map (event_since l.ts) (l ∷ ls) in
        let hdr = header fl json parse flags.idle_limit in
        pos 1 ≤ℤ idle_limit fl hdr
        → Ascending (pos 0) events
        → (rows : List Row) × (map (λ (r : Row). r.event) rows ≡ events)
          × Paced (idle_limit fl hdr) (pos 0) (pos 0) rows
          × (run_logscast fl json parse (gives logs) write clock flags id
              ≡ store write (length (l ∷ ls)) (file fl json hdr rows))
    unfolding save
    run_logscast_lem limited ascending =
        let events = map (event_since l.ts) (l ∷ ls) in
        let hdr = header fl json parse flags.idle_limit in
        let all_output = outputs l.ts (l ∷ ls) in
        let (rows, encoded, kept, paced) =
          marshal-Paced fl json hdr events limited (rw all_output ascending) in
        (
          rows,
          kept ∙ all_output,
          paced,
          run_logscast-save
              ∙ rw (save, encoded)
                  (ap (λ n. store write n (file fl json hdr rows))
                    (length-map (event_since l.ts) (l ∷ ls))),
        )
