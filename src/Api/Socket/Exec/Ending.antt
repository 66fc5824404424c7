-- ===== src/Api/Socket/Exec/Ending.antt =====
-- How an exec connection ends.
use cternal.Prelude.{
  ℕ, ◌+◌, ◌≤◌, ◌<◌, ◌≡◌, refl, arith, Bool, true, false, some, List, [], ◌∷◌, length, length-append,
}
use cternal.Api.Socket.{Message, exit}
use cternal.Api.Socket.Attach.{Reader, reading, waiting, returned, Writer, writing, done}
use cternal.Api.Socket.Runs.{Runs, IsStuck, Runs-bound}
use cternal.Api.Socket.Exec.Sent.{Ran, Ran_lem}
use cternal.Api.Socket.Exec.{
  Source, taking, telling, exiting, over, Exec, ExecMove, hears, hears_no_more, leaves, takes,
  stream_ends, tells, gives_up, writes, write_fails, ends, exec_reader, tell, stop_telling,
  exec_source, exec_writer, exec_move,
}

-- The client has left, or will not be heard again, and the container's stream has ended.
abbrev pub is_past : Source → Bool
is_past taking = false
is_past (telling content) = false
is_past exiting = true
is_past over = true

abbrev pub is_deaf : Reader → Bool
is_deaf reading = false
is_deaf waiting = true
is_deaf returned = true

abbrev pub source_left : Source → ℕ
source_left over = 0
source_left s = 2

abbrev pub writer_left : Writer → ℕ
writer_left writing = 1
writer_left done = 0

abbrev pub reader_left : Reader → ℕ
reader_left returned = 0
reader_left r = 1

-- How many steps there are left.
abbrev pub steps_left : Exec → ℕ
steps_left e =
    source_left e.source + length e.write_ch + writer_left e.writer + reader_left e.reader

IsEnding : Exec → Type 0
IsEnding e = (is_past e.source ≡ true) × (is_deaf e.reader ≡ true)

exec_move-IsEnding :
    (e e' : Exec) (m : ExecMove)
    → IsEnding e
    → exec_move e m ≡ some e'
    → IsEnding e' × (steps_left e' < steps_left e)
unfolding exec_move exec_reader exec_source exec_writer tell stop_telling IsEnding
exec_move-IsEnding e e' hears v p = ground arith
exec_move-IsEnding e e' hears_no_more v p = ground arith
exec_move-IsEnding e e' leaves v p = ground arith
exec_move-IsEnding e e' (takes content) v p = ground arith
exec_move-IsEnding e e' stream_ends v p = ground arith
exec_move-IsEnding e e' tells v p = ground (arith, length-append e.write_ch (exit ∷ []))
exec_move-IsEnding e e' gives_up v p = ground arith
exec_move-IsEnding e e' writes v p = ground arith
exec_move-IsEnding e e' write_fails v p = ground arith
exec_move-IsEnding e e' ends v p = ground arith

writer_stuck :
    (e : Exec) (w : Writer) (ch : List Message) (s : Source)
    → e.writer ≡ w
    → e.write_ch ≡ ch
    → e.source ≡ s
    → is_past s ≡ true
    → IsStuck exec_move e
    → w ≡ done
unfolding IsStuck exec_move exec_writer exec_source tell
writer_stuck e done ch s ew ec es past stuck = refl
writer_stuck e writing (msg ∷ rest) s ew ec es past stuck = ground (arith, stuck writes)
writer_stuck e writing [] taking ew ec es past stuck = cc
writer_stuck e writing [] (telling content) ew ec es past stuck = cc
writer_stuck e writing [] exiting ew ec es past stuck = ground (arith, stuck tells)
writer_stuck e writing [] over ew ec es past stuck = ground (arith, stuck ends)

reader_stuck :
    (e : Exec) (r : Reader)
    → e.reader ≡ r
    → is_deaf r ≡ true
    → e.writer ≡ done
    → IsStuck exec_move e
    → r ≡ returned
unfolding IsStuck exec_move exec_reader
reader_stuck e reading er deaf w stuck = cc
reader_stuck e waiting er deaf w stuck = ground (arith, stuck leaves)
reader_stuck e returned er deaf w stuck = refl

-- Once the container's stream has ended and the client is gone, an exec connection ends: in whatever
-- order its goroutines run, they take at most 68 steps more, and where they can take no further
-- step the handler has returned.
pub Runs_lem :
    (e e' : Exec) (n : ℕ)
    → Ran e
    → is_past e.source ≡ true
    → is_deaf e.reader ≡ true
    → Runs exec_move e n e'
    → (n ≤ 68) × (IsStuck exec_move e' → e'.reader ≡ returned)
unfolding IsEnding
Runs_lem e e' n r past deaf run =
    let (_, _, bound) = Ran_lem e r in
    let ((past', deaf'), le) =
      Runs-bound exec_move IsEnding steps_left exec_move-IsEnding e e' n (past, deaf) run in
    (
      ground (arith, le, bound),
      λ stuck.
          reader_stuck e' e'.reader refl deaf'
            (writer_stuck e' e'.writer e'.write_ch e'.source refl refl refl past' stuck) stuck,
    )
