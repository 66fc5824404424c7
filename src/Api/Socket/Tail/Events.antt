-- ===== src/Api/Socket/Tail/Events.antt =====
-- What a recording's outputs are when an event is added.
use mathlib.Core.List.{map-append}
use cternal.Prelude.{
  ◌≡◌, refl, ap, Bool-cases, inl, inr, List, [], ◌∷◌, ◌++◌, Bytes, map, keep, keep-append, bytes_eq,
  true, false, append-nil,
}
use cternal.Prelude.Int.{ℤ}
use cternal.Recorder.{Event, event_output, is_output, since, add, add_at}
use cternal.Recorder.Player.Pace.{texts}
use cternal.Newline.{normalize_lf}
use cternal.Logs.{ParseTime, Reading, parse_line, log_line, is_zero}

-- An event behind others, as the texts of the outputs see it.
pub texts-output :
    (evs : List Event) (ev : Event)
    → is_output ev ≡ true
    → texts (evs ++ ev ∷ []) ≡ texts evs ++ ev.content ∷ []
texts-output evs ev e =
    rw (keep-append is_output evs (ev ∷ []), e)
      (map-append (λ (x : Event). x.content) (keep is_output evs) (ev ∷ []))

pub texts-other :
    (evs : List Event) (ev : Event) → is_output ev ≡ false → texts (evs ++ ev ∷ []) ≡ texts evs
texts-other evs ev e =
    rw (keep-append is_output evs (ev ∷ []), e) (ap texts_of (append-nil (keep is_output evs)))
  where
    texts_of : List Event → List Bytes
    texts_of = map (λ (x : Event). x.content)

-- A line adds one event, whose content is the text that is sent.
pub log_line-event :
    (parse : ParseTime) (r : Reading) (line : Bytes) (now : ℤ)
    → let (r', text) = log_line parse r line now in
      (ev : Event) × (r'.recorder.events ≡ r.recorder.events ++ ev ∷ [])
      × (ev.content ≡ text)
      × (is_output ev ≡ true)
unfolding log_line add add_at is_output bytes_eq
log_line-event parse r line now =
    let p = parse_line parse r.epoch line in
    let text = normalize_lf (p.display ++ 10 ∷ []) in
    elim (Bool-cases (is_zero p.epoch)) [
      | inl untimed ↦
          rw (log_line, untimed)
            (
              record { time = since now r.recorder.start; typ = event_output; content = text },
              refl,
              refl,
              refl,
            )
      | inr timed ↦
          rw (log_line, timed)
            (record { time = p.elapsed; typ = event_output; content = text }, refl, refl, refl)
    ]
