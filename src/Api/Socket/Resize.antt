-- ===== src/Api/Socket/Resize.antt =====
-- The size that a client sets, in the recording that is exported.
use cternal.Prelude.{
  ℕ, ◌<◌, ◌^◌, ◌≡◌, refl, arith, Bool, true, false, Bool-cases, inl, inr, some, List, [], ◌∷◌, ◌++◌,
  Bytes, codes, bytes_eq, bytes_eq_refl, ==_iff, if◌then◌else◌, append_assoc,
}
use cternal.Prelude.Int.{ℤ, pos}
use cternal.Std.Decimal.{format_size}
use cternal.Std.Decimal.RoundTrip.{scan_size-format_size}
use cternal.Recorder.{Event, event_resize, since, add}
use cternal.Api.{Server, resizes}
use cternal.Api.Teardown.{cast_size}
use cternal.Api.Socket.{Wire, note, dispatch_message}

-- Whether a recording holds a resize event.
unfoldable pub is_resized : List Event → Bool
is_resized [] = false
is_resized (ev ∷ evs) =
    let rest = is_resized evs in if bytes_eq ev.typ event_resize then true else rest

cast_size-append :
    (evs more : List Event)
    → cast_size (evs ++ more) ≡ (if is_resized evs then cast_size evs else cast_size more)
unfolding cast_size is_resized
cast_size-append [] more = refl
cast_size-append (ev ∷ evs) more = elim (Bool-cases (bytes_eq ev.typ event_resize)) [
  | inl e ↦ rw (cast_size, is_resized, e)
  | inr e ↦ rw (cast_size, is_resized, e) (cast_size-append evs more)
]

noted_size : ℤ → ℕ → ℕ → Event
noted_size elapsed cols rows = record {
  time = elapsed;
  typ = event_resize;
  content = format_size cols rows;
}

note_event :
    (s : Server) (p cols rows : ℕ) (now : ℤ)
    → ((note s p event_resize (format_size cols rows) now (λ st. resizes st cols rows)).heap
        p).recorder.events
      ≡ (s.heap p).recorder.events
        ++ noted_size (since now (s.heap p).recorder.start) cols rows ∷ []
unfolding note add noted_size
note_event s p cols rows now = rw ((==_iff p p).1 refl) refl

cast_size-noted :
    (elapsed : ℤ) (cols rows : ℕ) (more : List Event)
    → cols < 2 ^ 16
    → rows < 2 ^ 16
    → cast_size (noted_size elapsed cols rows ∷ more) ≡ (pos cols, pos rows)
unfolding cast_size noted_size
cast_size-noted elapsed cols rows more lc lr = rw (
  cast_size,
  bytes_eq_refl event_resize,
  scan_size-format_size cols rows (omega arith) (omega arith),
)

-- The first size that a client sets, with the sixteen bits of a column or row count, is the size in
-- the header of the recording, however the session goes on; a later one does not change that size.
pub dispatch_resize_lem :
    (wire : Wire) (s : Server) (raw : Bytes) (p cols rows : ℕ) (now : ℤ) (more : List Event)
    → wire.decode_type raw ≡ some (codes "resize")
    → wire.decode_resize raw ≡ some (cols, rows)
    → cols < 2 ^ 16
    → rows < 2 ^ 16
    → let events = (s.heap p).recorder.events in
      cast_size (((dispatch_message wire s raw p now).heap p).recorder.events ++ more)
      ≡ (if is_resized events then cast_size events else (pos cols, pos rows))
unfolding dispatch_message bytes_eq
dispatch_resize_lem wire s raw p cols rows now more typ size lc lr =
    let s1 : Server = record s {
      ws_messages = s.ws_messages ++ ((s.heap p).mode, codes "resize") ∷ [];
    } in
    rw
      (
        dispatch_message,
        typ,
        size,
        note_event s1 p cols rows now,
        append_assoc (s.heap p).recorder.events
            (noted_size (since now (s.heap p).recorder.start) cols rows ∷ []) more,
        cast_size-append (s.heap p).recorder.events
            (noted_size (since now (s.heap p).recorder.start) cols rows ∷ more),
      )
      (rw (cast_size-noted (since now (s.heap p).recorder.start) cols rows more lc lr))
