-- ===== src/Recorder/Cast.antt =====
-- internal/recorder/cast.go: a recording as an asciicast file. encoding/json is a parameter: the code
-- relies on no more than which values it refuses.
pub mod Timeline
pub mod Duration
use cternal.Prelude.{
  ℕ, Bool, true, false, ◌&&◌, Option, none, some, List, [], ◌∷◌, ◌++◌, Bytes, if◌then◌else◌,
}
use cternal.Prelude.Int.{ℤ, pos, ltb_ℤ, add64, sub64}
use cternal.Floats.{Floats}
use cternal.Recorder.{Event, EventType, is_output}

pub record Env : Type 0 where
  pub shell : Bytes
  pub term : Bytes

pub record Header (fl : Floats) : Type 0 where
  pub version : ℤ
  pub width : ℤ
  pub height : ℤ
  pub timestamp : ℤ
  pub title : Bytes
  pub idle_time_limit : fl.Float
  pub env : Option Env

-- json.Marshal of a header and of the row of an event; `none` is an error.
pub record Json (fl : Floats) : Type 0 where
  pub encode_header : Header fl → Option Bytes
  pub encode_row : fl.Float → EventType → Bytes → Option Bytes

infixl 5 ◌>>=◌
abbrev pub ◌>>=◌ {ℓ κ} : {A : Type ℓ} {B : Type κ} → Option A → (A → Option B) → Option B
none >>= f = none
some a >>= f = f a

-- The gap since the raw time of the output before, cut to a positive limit.
unfoldable pub clamped_gap : ℤ → ℤ → ℤ → ℤ
clamped_gap limit prev_raw time =
    let gap = sub64 time prev_raw in if ltb_ℤ (pos 0) limit && ltb_ℤ limit gap then limit else gap

-- The next cursor: the time written for an output, behind one written at `cursor`.
unfoldable pub advance : ℤ → ℤ → ℤ → ℤ → ℤ
unfolding clamped_gap
advance limit cursor prev_raw time = add64 cursor (clamped_gap limit prev_raw time)

abbrev pub idle_limit : (fl : Floats) → Header fl → ℤ
idle_limit fl hdr =
    if fl.positive hdr.idle_time_limit then fl.duration_of hdr.idle_time_limit else pos 0

module _ (fl : Floats) (json : Json fl) where
  marshal_loop : ℤ → List Event → ℤ → ℤ → Bytes → Option Bytes
  marshal_loop limit [] cursor prev_raw result = some result
  marshal_loop limit (ev ∷ evs) cursor prev_raw result = elim (is_output ev) [
    | false ↦ marshal_loop limit evs cursor prev_raw result
    | true ↦
        let cursor' = advance limit cursor prev_raw ev.time in
        do
          line ← json.encode_row (fl.seconds_of cursor') ev.typ ev.content
          marshal_loop limit evs cursor' ev.time ((result ++ line) ++ 10 ∷ [])
  ]

  unfoldable pub marshal : Header fl → List Event → Option Bytes
  unfolding marshal_loop
  marshal hdr events = do
    header_bytes ← json.encode_header (record hdr { version = pos 2 })
    marshal_loop (idle_limit fl hdr) events (pos 0) (pos 0) (header_bytes ++ 10 ∷ [])
