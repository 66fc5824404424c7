-- ===== src/Play/Rounds.antt =====
-- The playbacks of `play`: what is written of a recorded file, and when a loop ends.
use cternal.Prelude.{
  ℕ, zero, suc, ◌+◌, ◌≤◌, ◌<◌, ◌≡◌, ◌≢◌, refl, ap, sym, ◌∙◌, ◌⊎◌, inl, inr, arith, Bool, true,
  false, Option, some, none, List, [], ◌∷◌, ◌++◌, append-nil, append_assoc, map, Bytes, codes, keep,
  keep-All, All, length,
}
use cternal.Prelude.Int.{ℤ, pos}
use cternal.Floats.{Floats}
use cternal.Std.Scan.{IsLine, unlines, scan_error, scan_lines-unlines_too_long}
use cternal.Runtime.{gives}
use cternal.Recorder.{Event, is_output}
use cternal.Recorder.Cast.{Header, Json, marshal, idle_limit}
use cternal.Recorder.Cast.Timeline.{rows_from, marshal-file}
use cternal.Recorder.Player.{Playback, Ending, finished, interrupted, failed, new_player, play}
use cternal.Recorder.Player.Pace.{IsCalm, texts, play-texts, play-finishes}
use cternal.Play.{
  Decoder, Round, Exit, no_error, cannot_load, cannot_write, scanner_limit, load_cast, play_rounds,
  run_play,
}
use cternal.Play.Readback.{Decodes, Fits, read_back, load_cast-file, texts-read_back}

abbrev pub said : Playback → List Bytes
said b = map (λ (w : ℤ × Bytes). w.1) b.written

-- How runPlay returns when a round has ended so and is the last.
abbrev pub exit_of : Ending → Exit
exit_of finished = no_error
exit_of interrupted = no_error
exit_of failed = cannot_write

abbrev pub repeated : ℕ → List Bytes → List Bytes
repeated zero ts = []
repeated (suc n) ts = ts ++ repeated n ts

Ending-cases : (e : Ending) → (e ≡ finished) ⊎ (e ≡ interrupted) ⊎ (e ≡ failed)
Ending-cases finished = inl refl
Ending-cases interrupted = inr (inl refl)
Ending-cases failed = inr (inr refl)

module _ (fl : Floats) (events : List Event) (speed : fl.Float) (rounds : ℕ → Round) where
  abbrev pub playback : ℕ → Playback
  playback i = play fl (new_player fl events speed) (rounds i).surroundings

  -- The round before is followed by another, or not.
  abbrev pub GoesOn : ℕ → Type 0
  GoesOn i = ((playback i).ending ≡ finished) × ((rounds i).closed ≡ false)

  abbrev pub IsLast : ℕ → Type 0
  IsLast i = ((playback i).ending ≢ finished) ⊎ ((rounds i).closed ≡ true)

  -- From a round on, so many rounds go on, and the next is the last.
  abbrev pub LastAfter : ℕ → ℕ → Type 0
  LastAfter i zero = IsLast i
  LastAfter i (suc k) = GoesOn i × LastAfter (suc i) k

  said_all : (i : ℕ) → (playback i).ending ≡ finished → said (playback i) ≡ texts events
  unfolding new_player
  said_all i e =
      let (rest, joined, all_said) =
        play-texts fl (new_player fl events speed) (rounds i).surroundings in
      let no_rest : said (playback i) ++ [] ≡ texts events = rw (all_said e) at joined in
      sym (append-nil _) ∙ no_rest

  module _ (i : ℕ) (w : List Bytes) where
    rounds_on :
        (n : ℕ)
        → GoesOn i
        → play_rounds fl events speed true rounds (suc n) i w
          ≡ play_rounds fl events speed true rounds n (suc i) (w ++ texts events)
    unfolding play_rounds
    rounds_on n (e, stays) = rw (play_rounds, e, stays, said_all i e) refl

    rounds_end :
        (loop : Bool) (n : ℕ)
        → IsLast i ⊎ (loop ≡ false)
        → play_rounds fl events speed loop rounds (suc n) i w
          ≡ some (w ++ said (playback i), exit_of (playback i).ending)
    unfolding play_rounds
    rounds_end loop n last = elim (Ending-cases (playback i).ending) [
      | inr (inl e) ↦ rw (play_rounds, e) refl
      | inr (inr e) ↦ rw (play_rounds, e) refl
      | inl e ↦ elim last [
        | inr once ↦ rw (play_rounds, e) (ground (arith, once))
        | inl (inl more) ↦ absurd (more e)
        | inl (inr closed) ↦ rw (play_rounds, e, closed) refl
      ]
    ]

  -- A playback in a loop ends with the round that is interrupted, that cannot write or behind which
  -- `done` is closed, and with none before: each round before it has written all the texts. So many
  -- rounds, and one, are enough for the loop, and no fewer are.
  pub play_rounds_lem :
      (k n i : ℕ) (w : List Bytes)
      → LastAfter i k
      → let b = playback (i + k) in
        (n ≤ k → play_rounds fl events speed true rounds n i w ≡ none)
        × (k < n
            → play_rounds fl events speed true rounds n i w
              ≡ some (w ++ (repeated k (texts events) ++ said b), exit_of b.ending))
  play_rounds_lem k zero i w h = (λ _. unfold play_rounds in refl, λ few. absurd (omega arith))
  play_rounds_lem zero (suc n) i w h =
      let here : i + 0 ≡ i = omega arith in
      (λ few. absurd (omega arith), λ _. rw here (rounds_end i w true n (inl h)))
  play_rounds_lem (suc k) (suc n) i w (on, h) =
      let there : i + suc k ≡ suc i + k = omega arith in
      let (before, behind) = play_rounds_lem k n (suc i) (w ++ texts events) h in
      rw there (
        λ few. rounds_on i w n on ∙ before (omega arith),
        λ enough. rounds_on i w n on ∙ behind (omega arith) ∙ simp append_assoc,
      )

  play_once :
      (n : ℕ)
      → IsCalm (rounds 0).surroundings
      → play_rounds fl events speed false rounds (suc n) 0 [] ≡ some (texts events, no_error)
  play_once n calm =
      let e = play-finishes fl (rounds 0).surroundings calm (new_player fl events speed) in
      rounds_end 0 [] false n (inr refl) ∙ rw (said_all 0 e, e) refl

module _ (fl : Floats) (json : Json fl) (decoder : Decoder fl) (valid : Bytes → Bytes)
    (law : Decodes fl json decoder valid) where
  -- A file that `Marshal` has written, with lines of less than 65,536 bytes, is played to its end where
  -- nothing disturbs it: the texts of the recording's output events are written in their order, made
  -- valid UTF-8 each by itself.
  pub run_play-marshal :
      (hdr : Header fl) (evs : List Event) (content : Bytes) (speed : fl.Float) (rounds : ℕ → Round)
      (n : ℕ)
      → marshal fl json hdr evs ≡ some content
      → ((l : Bytes)
          → json.encode_header (record hdr { version = pos 2 }) ≡ some l
          → length l < scanner_limit)
      → Fits fl json decoder valid
          (rows_from (idle_limit fl hdr) (pos 0) (pos 0) (keep is_output evs))
      → IsCalm (rounds 0).surroundings
      → run_play fl decoder
          (gives (record { content = content; read_error = none }))
          speed
          false
          rounds
          (suc n)
        ≡ some (map valid (texts evs), no_error)
  unfolding run_play
  run_play-marshal hdr evs content speed rounds n e short fits calm =
      let limit = idle_limit fl hdr in
      let rows = rows_from limit (pos 0) (pos 0) (keep is_output evs) in
      let loaded =
        load_cast-file fl json decoder valid law hdr rows content
          (sym (marshal-file fl json hdr evs) ∙ e) short fits in
      rw
        (
          run_play,
          loaded,
          play_once fl (map (read_back fl json decoder valid) rows) speed rounds n calm,
        )
        (ap (λ (ts : List Bytes). some (ts, no_error))
          (texts-read_back fl json decoder valid law limit (pos 0) (pos 0) (keep is_output evs)
            (keep-All is_output evs)))

-- A file with a line of 65,536 bytes or more is not played at all.
pub run_play_too_long :
    (fl : Floats) (decoder : Decoder fl) (ls : List Bytes) (l rest : Bytes) (speed : fl.Float)
    (loop : Bool) (rounds : ℕ → Round) (n : ℕ) (end : Option Bytes)
    → All (IsLine scanner_limit) ls
    → All (λ c. c ≢ 10) l
    → scanner_limit ≤ length l
    → run_play fl decoder
        (gives (record { content = unlines ls ++ (l ++ 10 ∷ rest); read_error = end }))
        speed
        loop
        rounds
        n
      ≡ some ([], cannot_load (codes "load cast: bufio.Scanner: token too long"))
unfolding run_play load_cast scan_error
run_play_too_long fl decoder ls l rest speed loop rounds n end fit b long =
    rw
      (
        run_play,
        load_cast,
        scan_error,
        scan_lines-unlines_too_long scanner_limit ls l rest fit b long,
      )
      refl
