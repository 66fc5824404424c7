-- ===== src/Api/Socket/Exec/Tests.antt =====
-- Examples of exec connections.
use cternal.Prelude.{◌≡◌, ◌≤◌, refl, List, [], ◌∷◌, ◌++◌, codes, length, some}
use cternal.Api.Socket.{Message, output, exit}
use cternal.Api.Socket.Attach.{returned, done, waiting, writing, write_capacity}
use cternal.Api.Socket.Exec.{
  taking, telling, exiting, over, Exec, new_exec, takes, gives_up, ends, tells, stream_ends,
  hears_no_more, exec_move,
}
use cternal.Api.Socket.Exec.Moves.{said_by}
use cternal.Api.Socket.Exec.Sent.{Ran, begins, goes_on, Ran_lem}
use cternal.Api.Socket.Exec.Lost.{here, onward, takes_lost}
use cternal.Api.Socket.Runs.{stands, runs, IsStuck}
use cternal.Api.Socket.Exec.Ending.{Runs_lem}

abbrev one_taken : Exec
one_taken = record new_exec { source = telling (codes "x"); taken = codes "x" ∷ [] }

Ran_lem_example :
    ((rest : List Message) × (one_taken.sent ++ rest ≡ said_by one_taken))
    × ((e' : Exec)
        → exec_move one_taken ends ≡ some e'
        → one_taken.sent ≡ output (codes "x") ∷ exit ∷ [])
    × (length one_taken.write_ch ≤ write_capacity)
unfolding exec_move new_exec
Ran_lem_example = Ran_lem one_taken (goes_on begins (takes (codes "x")) refl)

-- The handler has returned, and its source is still at a read.
abbrev left_behind : Exec
left_behind = record {
  reader = returned;
  source = taking;
  write_ch = [];
  writer = done;
  taken = [];
  sent = [];
}

abbrev with_text : Exec
with_text = record left_behind { source = telling (codes "y"); taken = codes "y" ∷ [] }

takes_lost_example :
    (exec_move left_behind (takes (codes "y")) ≡ some with_text) × ([] ≡ left_behind.sent)
unfolding exec_move
takes_lost_example =
    takes_lost left_behind (record with_text { source = over }) (codes "y") refl refl
      (onward here gives_up refl)

-- The client is gone and the stream has ended; the exit message is still to be sent.
abbrev closing : Exec
closing = record {
  reader = waiting;
  source = exiting;
  write_ch = [];
  writer = writing;
  taken = [];
  sent = [];
}

abbrev told : Exec
told = record closing { source = over; write_ch = exit ∷ [] }

closing-Ran : Ran closing
unfolding exec_move new_exec
closing-Ran = goes_on (goes_on begins stream_ends refl) hears_no_more refl

Runs_lem_example : (1 ≤ 68) × (IsStuck exec_move told → told.reader ≡ returned)
unfolding exec_move
Runs_lem_example = Runs_lem closing told 1 closing-Ran refl refl (runs stands tells refl)
