-- ===== src/Recorder/Cast/Timeline.antt =====
-- The times in a cast file against those of the recording.
use cternal.Prelude.{
  ◌≡◌, refl, ap, ◌∙◌, arith, Bool-cases, Option-cases, inl, inr, ◌⊎◌, Option, none, some, List, [],
  ◌∷◌, ◌++◌, map, append-nil, append_assoc, Bytes, keep,
}
use cternal.Prelude.Int.{ℤ, pos, ◌≤ℤ◌, ◌+ℤ◌, ◌-ℤ◌, Fits64, sub64, add64-eq, sub64-eq, int_laws}
use cternal.Floats.{Floats}
use cternal.Recorder.{Event, is_output}
use cternal.Recorder.Cast.{
  Header, Json, ◌>>=◌, clamped_gap, advance, marshal_loop, idle_limit, marshal,
}

-- A row of a cast file: its time and its event.
pub record Row : Type 0 where
  pub time : ℤ
  pub event : Event

-- The rows of a list of output events behind one at the raw time `prev`, which is written at `cursor`.
unfoldable pub rows_from : ℤ → ℤ → ℤ → List Event → List Row
rows_from limit cursor prev [] = []
rows_from limit cursor prev (ev ∷ evs) =
    let cursor' = advance limit cursor prev ev.time in
    record { time = cursor'; event = ev } ∷ rows_from limit cursor' ev.time evs

bind_regroup :
    (m n : Option Bytes) (k : Bytes → Option Bytes) (result : Bytes)
    → ((line : Bytes) → k line ≡ (n >>= λ rest. some (((result ++ line) ++ 10 ∷ []) ++ rest)))
    → (m >>= k)
      ≡ ((m >>= λ line. n >>= λ rest. some (line ++ 10 ∷ rest)) >>= λ rest. some (result ++ rest))
bind_regroup none n k result h = refl
bind_regroup (some line) none k result h = h line
bind_regroup (some line) (some rest) k result h = h line ∙ ap some (simp append_assoc)

regroup_tail :
    (n : Option Bytes) (h : Bytes)
    → (n >>= λ rest. some ((h ++ 10 ∷ []) ++ rest)) ≡ (n >>= λ rest. some (h ++ 10 ∷ rest))
regroup_tail none h = refl
regroup_tail (some rest) h = ap some (simp append_assoc)

module _ (fl : Floats) (json : Json fl) where
  -- The lines of a file: each row encoded, a line break behind it. An error in one is an error.
  unfoldable pub lines : List Row → Option Bytes
  lines [] = some []
  lines (r ∷ rs) = do
    line ← json.encode_row (fl.seconds_of r.time) r.event.typ r.event.content
    rest ← lines rs
    some (line ++ 10 ∷ rest)

  -- A whole file: the header of version 2, and the lines of the rows.
  unfoldable pub file : Header fl → List Row → Option Bytes
  file hdr rows = do
    header_bytes ← json.encode_header (record hdr { version = pos 2 })
    rest ← lines rows
    some (header_bytes ++ 10 ∷ rest)

  marshal_loop-lines :
      (limit : ℤ) (evs : List Event) (cursor prev : ℤ) (result : Bytes)
      → marshal_loop fl json limit evs cursor prev result ≡ (
          lines (rows_from limit cursor prev (keep is_output evs)) >>= λ rest.
          some (result ++ rest))
  unfolding marshal_loop lines rows_from
  marshal_loop-lines limit [] cursor prev result = rw append-nil
  marshal_loop-lines limit (ev ∷ evs) cursor prev result = elim (Bool-cases (is_output ev)) [
    | inl out ↦
        rw (out, marshal_loop)
          (bind_regroup _ _ _ result (λ line. marshal_loop-lines limit evs _ ev.time _))
    | inr other ↦ rw (other, marshal_loop) (marshal_loop-lines limit evs cursor prev result)
  ]

  pub marshal-file :
      (hdr : Header fl) (evs : List Event)
      → marshal fl json hdr evs
        ≡ file hdr (rows_from (idle_limit fl hdr) (pos 0) (pos 0) (keep is_output evs))
  unfolding marshal file
  marshal-file hdr evs = elim (Option-cases (json.encode_header (record hdr { version = pos 2 }))) [
    | inl e ↦ rw e refl
    | inr (h, e) ↦
        rw e (marshal_loop-lines (idle_limit fl hdr) evs (pos 0) (pos 0) _ ∙ regroup_tail _ h)
  ]

-- The times of a list of events do not fall, from `prev` on, and are values of int64.
abbrev pub Ascending : ℤ → List Event → Type 0
Ascending prev [] = Unit {0}
Ascending prev (ev ∷ evs) = (prev ≤ℤ ev.time) × Fits64 ev.time × Ascending ev.time evs

-- Each row is as far behind the one before as its event is, or by the limit if that is less. The sums
-- and differences are those of the integers, with no overflow.
abbrev pub Paced : ℤ → ℤ → ℤ → List Row → Type 0
Paced limit cursor prev [] = Unit {0}
Paced limit cursor prev (r ∷ rs) =
    (((r.event.time -ℤ prev) ≤ℤ limit) × (r.time ≡ cursor +ℤ (r.event.time -ℤ prev))
      ⊎ ((limit ≤ℤ (r.event.time -ℤ prev)) × (r.time ≡ cursor +ℤ limit)))
    × Paced limit r.time r.event.time rs

module _ (limit c p t : ℤ) (c0 : pos 0 ≤ℤ c) (cp : c ≤ℤ p) (pt : p ≤ℤ t) (fits : Fits64 t) where
  gap_exact : sub64 t p ≡ t -ℤ p
  gap_exact = sub64-eq t p (omega int_laws)

  clamped-cases :
      pos 1 ≤ℤ limit
      → (((t -ℤ p) ≤ℤ limit) × (clamped_gap limit p t ≡ t -ℤ p))
        ⊎ ((limit ≤ℤ (t -ℤ p)) × (clamped_gap limit p t ≡ limit))
  unfolding clamped_gap
  clamped-cases h = rw gap_exact (ground arith)

  advance-cases :
      pos 1 ≤ℤ limit
      → let c' = advance limit c p t in
        (((t -ℤ p) ≤ℤ limit) × (c' ≡ c +ℤ (t -ℤ p)) ⊎ ((limit ≤ℤ (t -ℤ p)) × (c' ≡ c +ℤ limit)))
        × (pos 0 ≤ℤ c')
        × (c' ≤ℤ t)
  unfolding advance
  advance-cases h = elim (clamped-cases h) [
    | inl (short, e) ↦
        rw (e, add64-eq c (t -ℤ p) (omega int_laws))
          (inl (short, refl), omega int_laws, omega int_laws)
    | inr (long, e) ↦
        rw (e, add64-eq c limit (omega int_laws)) (inr (long, refl), omega int_laws, omega int_laws)
  ]

  unclamped : limit ≤ℤ pos 0 → clamped_gap limit p t ≡ t -ℤ p
  unfolding clamped_gap
  unclamped h = rw gap_exact (ground arith)

  advance_unlimited : limit ≤ℤ pos 0 → advance limit c p t ≡ c +ℤ (t -ℤ p)
  unfolding advance
  advance_unlimited h = rw (unclamped h) (add64-eq c (t -ℤ p) (omega int_laws))

-- The rows keep the events, and in an ascending recording they keep the pace.
pub rows_from-event :
    (limit c p : ℤ) (evs : List Event) → map (λ (r : Row). r.event) (rows_from limit c p evs) ≡ evs
unfolding rows_from
rows_from-event limit c p [] = refl
rows_from-event limit c p (ev ∷ evs) =
    ap (◌∷◌ ev) (rows_from-event limit (advance limit c p ev.time) ev.time evs)

rows_from-Paced :
    (limit c p : ℤ) (evs : List Event)
    → pos 1 ≤ℤ limit
    → pos 0 ≤ℤ c
    → c ≤ℤ p
    → Ascending p evs
    → Paced limit c p (rows_from limit c p evs)
unfolding rows_from
rows_from-Paced limit c p [] l c0 cp a = tt
rows_from-Paced limit c p (ev ∷ evs) l c0 cp (pt, fits, a) =
    let (cases, nonneg, behind) = advance-cases limit c p ev.time c0 cp pt fits l in
    (cases, rows_from-Paced limit (advance limit c p ev.time) ev.time evs l nonneg behind a)

rows_from-own_time :
    (limit p : ℤ) (evs : List Event)
    → limit ≤ℤ pos 0
    → pos 0 ≤ℤ p
    → Ascending p evs
    → rows_from limit p p evs ≡ map (λ ev. record { time = ev.time; event = ev }) evs
unfolding rows_from
rows_from-own_time limit p [] l p0 a = refl
rows_from-own_time limit p (ev ∷ evs) l p0 (pt, fits, a) =
    let e : advance limit p p ev.time ≡ ev.time =
      advance_unlimited limit p p ev.time p0 (omega arith) pt fits l ∙ omega int_laws in
    rw e (
      ap (◌∷◌ (record { time = ev.time; event = ev }))
        (rows_from-own_time limit ev.time evs l (omega arith) a))

module _ (fl : Floats) (json : Json fl) (hdr : Header fl) (evs : List Event) where
  -- With a positive idle limit, and output times that do not fall from zero on, `Marshal` writes the
  -- header of version 2 and a row for each output event, in order and with its own type and data. Each
  -- row is as far behind the one before as its event is behind the one before, or by the limit if that
  -- is less. It fails exactly where the header or a row cannot be encoded.
  pub marshal-Paced :
      pos 1 ≤ℤ idle_limit fl hdr
      → Ascending (pos 0) (keep is_output evs)
      → (rows : List Row) × (marshal fl json hdr evs ≡ file fl json hdr rows)
        × (map (λ (r : Row). r.event) rows ≡ keep is_output evs)
        × Paced (idle_limit fl hdr) (pos 0) (pos 0) rows
  marshal-Paced l a = (
    rows_from (idle_limit fl hdr) (pos 0) (pos 0) (keep is_output evs),
    marshal-file fl json hdr evs,
    rows_from-event _ _ _ (keep is_output evs),
    rows_from-Paced _ _ _ (keep is_output evs) l (omega arith) (omega arith) a,
  )

  -- With no positive idle limit each output event is written at its own time.
  pub marshal_unlimited :
      idle_limit fl hdr ≤ℤ pos 0
      → Ascending (pos 0) (keep is_output evs)
      → marshal fl json hdr evs
        ≡ file fl json hdr (map (λ ev. record { time = ev.time; event = ev }) (keep is_output evs))
  marshal_unlimited l a =
      marshal-file fl json hdr evs
      ∙ ap (file fl json hdr)
          (rows_from-own_time (idle_limit fl hdr) (pos 0) (keep is_output evs) l (omega arith) a)
