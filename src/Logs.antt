-- ===== src/Logs.antt =====
-- The lines of a container's log, as runLogsWS of internal/api/ws.go and runLogscast of
-- cmd/cternal/logscast.go both read them: the runtime puts an RFC 3339 time in front of each.
pub mod Stamps
mod Tests
use cternal.Prelude.{
  ℕ, Bool, true, false, Option, none, some, List, [], ◌∷◌, ◌++◌, Bytes, if◌then◌else◌, is_empty,
  ◌==◌,
}
use cternal.Prelude.Int.{ℤ, pos, ◌-ℤ◌, saturate64}
use cternal.Std.{split_at_byte}
use cternal.Newline.{normalize_lf}
use cternal.Recorder.{Recorder, event_output, add, add_at, since}

-- time.Parse; the zero time is 0.
abbrev pub ParseTime : Type 0
ParseTime = Bytes → Option ℤ

abbrev pub is_zero : ℤ → Bool
is_zero (pos n) = n == 0
is_zero _ = false

pub record Reading : Type 0 where
  pub epoch : ℤ
  pub recorder : Recorder

-- The first line's time, the line's time since it, and what is shown of the line.
pub record Parsed : Type 0 where
  pub epoch : ℤ
  pub elapsed : ℤ
  pub display : Bytes

unfoldable pub parse_line : ParseTime → ℤ → Bytes → Parsed
unfolding split_at_byte since
parse_line parse epoch line =
    let plain : Parsed = record { epoch = epoch; elapsed = pos 0; display = line } in
    elim (split_at_byte 32 line) [
      | none ↦ plain
      | some (before, after) ↦ if is_empty before then plain else elim (parse before) [
        | none ↦ plain
        | some ts ↦
            let epoch' = if is_zero epoch then ts else epoch in
            record { epoch = epoch'; elapsed = since ts epoch'; display = after }
      ]
    ]

-- One line, at a clock that shows `now`: the recording behind it, and the text that is sent.
unfoldable pub log_line : ParseTime → Reading → Bytes → ℤ → Reading × Bytes
unfolding parse_line normalize_lf add add_at
log_line parse r line now =
    let p = parse_line parse r.epoch line in
    let text = normalize_lf (p.display ++ 10 ∷ []) in
    let recorder =
      if is_zero p.epoch
      then add r.recorder event_output text now
      else add_at r.recorder event_output text p.elapsed in
    (record { epoch = p.epoch; recorder = recorder }, text)

unfoldable pub log_lines : ParseTime → Reading → List (Bytes × ℤ) → Reading
unfolding log_line
log_lines parse r [] = r
log_lines parse r ((line, now) ∷ lines) = log_lines parse (log_line parse r line now).0 lines
