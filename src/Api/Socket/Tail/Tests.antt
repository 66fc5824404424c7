-- ===== src/Api/Socket/Tail/Tests.antt =====
-- An example of a connection to a logs session.
use cternal.Prelude.{◌≡◌, ◌≤◌, refl, none, List, [], ◌∷◌, ◌++◌, codes, length, some, map}
use cternal.Prelude.Int.{pos}
use cternal.Runtime.{fails}
use cternal.Recorder.{Event, new}
use cternal.Logs.{ParseTime}
use cternal.Api.Socket.{Message, output, error}
use cternal.Api.Socket.Attach.{waiting, returned, done, write_capacity}
use cternal.Api.Socket.Tail.{
  over, Tail, new_tail, open_tail, hears_no_more, scans, scan_ends, ends, take_line, tail_move,
}
use cternal.Recorder.Player.Pace.{texts}
use cternal.Api.Socket.Runs.{stands, runs, IsStuck}
use cternal.Api.Socket.Tail.Ending.{tail_move_lem}
use cternal.Api.Socket.Tail.Told.{Tailed, begins, goes_on, Tailed_lem}

abbrev parse : ParseTime
parse s = none

abbrev scanned : Tail
scanned = take_line parse (new_tail (new (pos 0))) (codes "hi") (pos 5)

scanned-Tailed : Tailed parse (new (pos 0)) scanned
unfolding tail_move new_tail take_line
scanned-Tailed = goes_on begins (scans (codes "hi") (pos 5)) refl

Tailed_lem_example :
    (evs : List Event) × (scanned.log.recorder.events ≡ (new (pos 0)).events ++ evs)
    × (texts evs ≡ scanned.taken)
    × ((rest : List Message) × (scanned.sent ++ rest ≡ map output (texts evs)))
    × ((t' : Tail) → tail_move parse scanned ends ≡ some t' → scanned.sent ≡ map output (texts evs))
    × (length scanned.write_ch ≤ write_capacity)
Tailed_lem_example = Tailed_lem parse (new (pos 0)) scanned scanned-Tailed

open_tail_fails :
    open_tail (new (pos 0)) (fails (codes "gone"))
    ≡ (error (codes "failed to open logs: gone") ∷ [], none)
unfolding open_tail
open_tail_fails = refl

-- The log has ended and the client is gone.
abbrev ending : Tail
ending = record (new_tail (new (pos 0))) { source = over; reader = waiting }

abbrev written : Tail
written = record ending { writer = done }

ending-Tailed : Tailed parse (new (pos 0)) ending
unfolding tail_move new_tail
ending-Tailed = goes_on (goes_on begins scan_ends refl) hears_no_more refl

tail_move_lem_example : (1 ≤ 66) × (IsStuck (tail_move parse) written → written.reader ≡ returned)
unfolding tail_move new_tail
tail_move_lem_example =
    tail_move_lem parse (new (pos 0)) ending written 1 ending-Tailed refl refl
      (runs stands ends refl)
