-- ===== src/Logs/Stamps.antt =====
-- The times of a recording that is made of a log.
use cternal.Prelude.{
  ◌≡◌, ◌≢◌, refl, sym, ap, ◌∙◌, false, Bool-cases, inl, inr, some, List, [], ◌∷◌, ◌++◌, Bytes, All,
  is_empty, if◌then◌else◌, map, append_assoc, append-nil,
}
use cternal.Prelude.Int.{ℤ, pos}
use cternal.Std.Cut.{split-append, split_none}
use cternal.Newline.{normalize_lf}
use cternal.Recorder.{Event, Recorder, event_output, add_at, since, new}
use cternal.Logs.{ParseTime, is_zero, Reading, parse_line, log_line, log_lines}

-- A line with a time in front of it, and when it is read.
pub record Line : Type 0 where
  pub stamp : Bytes
  pub text : Bytes
  pub ts : ℤ
  pub now : ℤ

pub record IsStamped (parse : ParseTime) (l : Line) : Type 0 where
  pub one_word : All (λ c. c ≢ 32) l.stamp
  pub given : l.stamp ≢ []
  pub parsed : parse l.stamp ≡ some l.ts
  pub nonzero : is_zero l.ts ≡ false

abbrev pub raw : Line → Bytes × ℤ
raw l = (l.stamp ++ 32 ∷ l.text, l.now)

-- A stamped line in a recording whose first line was at `epoch`.
abbrev pub event_since : ℤ → Line → Event
event_since epoch l = record {
  time = since l.ts epoch;
  typ = event_output;
  content = normalize_lf (l.text ++ 10 ∷ []);
}

abbrev epoch_of : ℤ → ℤ → ℤ
epoch_of epoch ts = if is_zero epoch then ts else epoch

nonempty : (s : Bytes) → s ≢ [] → is_empty s ≡ false
nonempty [] n = elim (n refl) [ ]
nonempty (c ∷ s) n = refl

log_line-IsStamped :
    (parse : ParseTime) (r : Reading) (l : Line)
    → IsStamped parse l
    → (log_line parse r (l.stamp ++ 32 ∷ l.text) l.now).0 ≡ record {
      epoch = epoch_of r.epoch l.ts;
      recorder = record r.recorder {
        events = r.recorder.events ++ event_since (epoch_of r.epoch l.ts) l ∷ [];
      };
    }
unfolding log_line parse_line add_at
log_line-IsStamped parse r l v =
    let full : is_empty l.stamp ≡ false = nonempty l.stamp v.given in
    let late : is_zero (epoch_of r.epoch l.ts) ≡ false = elim (Bool-cases (is_zero r.epoch)) [
      | inl first ↦ rw first v.nonzero
      | inr later ↦ rw later later
    ] in
    rw (log_line, parse_line, split-append 32 l.stamp l.text v.one_word, full, v.parsed, late)

log_lines-IsStamped :
    (parse : ParseTime) (ls : List Line) (r : Reading)
    → All (IsStamped parse) ls
    → is_zero r.epoch ≡ false
    → log_lines parse r (map raw ls) ≡ record r {
      recorder = record r.recorder { events = r.recorder.events ++ map (event_since r.epoch) ls };
    }
unfolding log_lines
log_lines-IsStamped parse [] r v n =
    λ i. record r { recorder = record r.recorder { events = sym (append-nil r.recorder.events) i } }
log_lines-IsStamped parse (l ∷ ls) r (v, vs) n =
    rw (log_lines, log_line-IsStamped parse r l v, n)
      (log_lines-IsStamped parse ls
          (record r {
            recorder = record r.recorder {
              events = r.recorder.events ++ event_since r.epoch l ∷ [];
            };
          })
          vs n
        ∙ λ i. record r {
          recorder = record r.recorder {
            events =
                append_assoc r.recorder.events (event_since r.epoch l ∷ [])
                  (map (event_since r.epoch) ls) i;
          };
        })

log_lines_closed :
    (parse : ParseTime) (l : Line) (ls : List Line) (start : ℤ)
    → All (IsStamped parse) (l ∷ ls)
    → log_lines parse (record { epoch = pos 0; recorder = new start }) (map raw (l ∷ ls)) ≡ record {
      epoch = l.ts;
      recorder = record { events = map (event_since l.ts) (l ∷ ls); start = start };
    }
unfolding log_lines new
log_lines_closed parse l ls start (v, vs) =
    rw (log_lines, log_line-IsStamped parse (record { epoch = pos 0; recorder = new start }) l v)
      (log_lines-IsStamped parse ls
        (record {
          epoch = l.ts;
          recorder = record { events = event_since l.ts l ∷ []; start = start };
        })
        vs v.nonzero)

-- Where each line of a log has a time in front of it, the recording has an event for each line, at the
-- line's time since the first line, and its text is the line's text behind its time, with CR LF.
pub log_lines_lem :
    (parse : ParseTime) (l : Line) (ls : List Line) (start : ℤ)
    → All (IsStamped parse) (l ∷ ls)
    → (log_lines parse
        (record { epoch = pos 0; recorder = new start })
        (map raw (l ∷ ls))).recorder.events
      ≡ map (event_since l.ts) (l ∷ ls)
log_lines_lem parse l ls start v =
    ap (λ (r : Reading). r.recorder.events) (log_lines_closed parse l ls start v)

log_lines_from :
    (parse : ParseTime) (l : Line) (ls : List Line) (recorder : Recorder)
    → All (IsStamped parse) (l ∷ ls)
    → (log_lines parse (record { epoch = pos 0; recorder = recorder }) (map raw (l ∷ ls))).recorder
      ≡ record recorder { events = recorder.events ++ map (event_since l.ts) (l ∷ ls) }
unfolding log_lines
log_lines_from parse l ls recorder (v, vs) =
    let first : Reading = record {
      epoch = l.ts;
      recorder = record recorder { events = recorder.events ++ event_since l.ts l ∷ [] };
    } in
    rw (log_lines, log_line-IsStamped parse (record { epoch = pos 0; recorder = recorder }) l v)
      (ap (λ (r : Reading). r.recorder) (log_lines-IsStamped parse ls first vs v.nonzero) ∙ λ i.
        record recorder {
          events =
              append_assoc recorder.events (event_since l.ts l ∷ []) (map (event_since l.ts) ls) i;
        })

-- Each connection to a logs session reads the log for itself and records what it reads: where two have
-- read the same lines, each with a time in front of it, every line is in the recording twice, and the
-- times of the second reading begin at zero again.
pub log_lines_twice :
    (parse : ParseTime) (l : Line) (ls : List Line) (start : ℤ)
    → All (IsStamped parse) (l ∷ ls)
    → let lines = map raw (l ∷ ls) in
      let once = log_lines parse (record { epoch = pos 0; recorder = new start }) lines in
      let twice = log_lines parse (record { epoch = pos 0; recorder = once.recorder }) lines in
      let events = map (event_since l.ts) (l ∷ ls) in twice.recorder.events ≡ events ++ events
log_lines_twice parse l ls start v =
    let lines = map raw (l ∷ ls) in
    let once = log_lines parse (record { epoch = pos 0; recorder = new start }) lines in
    ap (λ (r : Recorder). r.events) (log_lines_from parse l ls once.recorder v)
    ∙ ap (λ (xs : List Event). xs ++ map (event_since l.ts) (l ∷ ls))
        (log_lines_lem parse l ls start v)

log_lines-append :
    (parse : ParseTime) (r : Reading) (ls more : List (Bytes × ℤ))
    → log_lines parse r (ls ++ more) ≡ log_lines parse (log_lines parse r ls) more
unfolding log_lines
log_lines-append parse r [] more = refl
log_lines-append parse r ((line, now) ∷ ls) more =
    log_lines-append parse (log_line parse r line now).0 ls more

unstamped :
    (parse : ParseTime) (r : Reading) (line : Bytes) (now : ℤ)
    → All (λ c. c ≢ 32) line
    → is_zero r.epoch ≡ false
    → (log_line parse r line now).0.recorder.events
      ≡ r.recorder.events
        ++ record { time = pos 0; typ = event_output; content = normalize_lf (line ++ 10 ∷ []) }
          ∷ []
unfolding log_line parse_line add_at
unstamped parse r line now h n = rw (log_line, parse_line, split_none 32 line h, n)

-- A line with no space behind lines that have a time in front of them is recorded at time 0, at the start of the
-- recording, whenever it is read.
pub log_lines_unstamped :
    (parse : ParseTime) (l : Line) (ls : List Line) (start : ℤ) (line : Bytes) (now : ℤ)
    → All (IsStamped parse) (l ∷ ls)
    → All (λ c. c ≢ 32) line
    → (log_lines parse
        (record { epoch = pos 0; recorder = new start })
        (map raw (l ∷ ls) ++ (line, now) ∷ [])).recorder.events
      ≡ map (event_since l.ts) (l ∷ ls)
        ++ record { time = pos 0; typ = event_output; content = normalize_lf (line ++ 10 ∷ []) }
          ∷ []
unfolding log_lines
log_lines_unstamped parse l ls start line now v h =
    ap (λ (r : Reading). r.recorder.events)
      (log_lines-append parse (record { epoch = pos 0; recorder = new start }) (map raw (l ∷ ls))
          ((line, now) ∷ [])
        ∙ ap (λ r. (log_line parse r line now).0) (log_lines_closed parse l ls start v))
    ∙ unstamped parse
        (record {
          epoch = l.ts;
          recorder = record { events = map (event_since l.ts) (l ∷ ls); start = start };
        })
        line now h v.0.nonzero
