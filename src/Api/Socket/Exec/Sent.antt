-- ===== src/Api/Socket/Exec/Sent.antt =====
-- What an exec connection sends, whatever the order in which its goroutines run.
use cternal.Prelude.{
  ◌≤◌, ◌≡◌, refl, sym, ap, ◌∙◌, arith, some, List, [], ◌∷◌, ◌++◌, length, map, append-nil,
  append_assoc,
}
use cternal.Api.Socket.{Message, output, exit}
use cternal.Api.Socket.Attach.{Writer, writing, done, write_capacity}
use cternal.Api.Socket.Exec.{
  Source, taking, telling, exiting, over, Exec, new_exec, ExecMove, hears, hears_no_more, leaves,
  takes, stream_ends, tells, gives_up, writes, write_fails, ends, exec_writer, exec_move,
}
use cternal.Api.Socket.Exec.Moves.{
  in_hand, said_by, IsSound, new_exec-IsSound, same, hears-IsSound, hears_no_more-IsSound,
  leaves-IsSound, source_takes-IsSound, source_ends-IsSound, source_tells-IsSound,
  source_gives_up-IsSound,
}

pub data Ran : Exec → Type 0 where
  begins : Ran new_exec
  goes_on : {e e' : Exec} → Ran e → (m : ExecMove) → exec_move e m ≡ some e' → Ran e'

writes-IsSound :
    (e e' : Exec) (w : Writer) (ch : List Message) (s : Source)
    → e.write_ch ≡ ch
    → e.writer ≡ w
    → IsSound e
    → exec_writer e writes w ch s ≡ some e'
    → IsSound e'
unfolding exec_writer said_by
writes-IsSound e e' writing [] s c at v p = cc
writes-IsSound e e' writing (msg ∷ rest) s c at v p =
    let all_of : e.sent ++ msg ∷ [] ++ (rest ++ in_hand e.source) ≡ said_by e =
      append_assoc e.sent (msg ∷ []) (rest ++ in_hand e.source)
      ∙ ap (λ xs. e.sent ++ (xs ++ in_hand e.source)) (sym c)
      ∙ v.whole at in
    same p (record {
      whole = λ w. all_of;
      prefix = (rest ++ in_hand e.source, all_of);
      bound = ground (arith, v.bound);
    })
writes-IsSound e e' done ch s c at v p = cc

write_fails-IsSound :
    (e e' : Exec) (w : Writer) (ch : List Message) (s : Source)
    → e.write_ch ≡ ch
    → IsSound e
    → exec_writer e write_fails w ch s ≡ some e'
    → IsSound e'
unfolding exec_writer said_by
write_fails-IsSound e e' writing [] s c v p = cc
write_fails-IsSound e e' writing (msg ∷ rest) s c v p =
    same p
      (record { whole = λ w. ground arith; prefix = v.prefix; bound = ground (arith, v.bound) })
write_fails-IsSound e e' done ch s c v p = cc

ends-IsSound :
    (e e' : Exec) (w : Writer) (ch : List Message) (s : Source)
    → IsSound e
    → exec_writer e ends w ch s ≡ some e'
    → IsSound e'
unfolding exec_writer said_by
ends-IsSound e e' writing [] taking v p = cc
ends-IsSound e e' writing [] (telling content) v p = cc
ends-IsSound e e' writing [] exiting v p = cc
ends-IsSound e e' writing [] over v p =
    same p (record { whole = λ w. ground arith; prefix = v.prefix; bound = v.bound })
ends-IsSound e e' writing (msg ∷ rest) s v p = cc
ends-IsSound e e' done ch s v p = cc

exec_move-IsSound : (e e' : Exec) (m : ExecMove) → IsSound e → exec_move e m ≡ some e' → IsSound e'
unfolding exec_move
exec_move-IsSound e e' hears v p = hears-IsSound e e' e.reader v p
exec_move-IsSound e e' hears_no_more v p = hears_no_more-IsSound e e' e.reader v p
exec_move-IsSound e e' leaves v p = leaves-IsSound e e' e.reader v p
exec_move-IsSound e e' (takes content) v p = source_takes-IsSound e e' content e.source refl v p
exec_move-IsSound e e' stream_ends v p = source_ends-IsSound e e' e.source refl v p
exec_move-IsSound e e' tells v p = source_tells-IsSound e e' e.source refl v p
exec_move-IsSound e e' gives_up v p = source_gives_up-IsSound e e' e.source refl v p
exec_move-IsSound e e' writes v p = writes-IsSound e e' e.writer e.write_ch e.source refl refl v p
exec_move-IsSound e e' write_fails v p =
    write_fails-IsSound e e' e.writer e.write_ch e.source refl v p
exec_move-IsSound e e' ends v p = ends-IsSound e e' e.writer e.write_ch e.source v p

Ran-IsSound : (e : Exec) → Ran e → IsSound e
Ran-IsSound _ begins = new_exec-IsSound
Ran-IsSound _ (goes_on {e} {e'} r m p) = exec_move-IsSound e e' m (Ran-IsSound e r) p

drained :
    (e e' : Exec) (w : Writer) (ch : List Message) (s : Source)
    → e.writer ≡ w
    → e.write_ch ≡ ch
    → e.source ≡ s
    → IsSound e
    → exec_writer e ends w ch s ≡ some e'
    → e.sent ≡ map output e.taken ++ exit ∷ []
unfolding exec_writer said_by
drained e e' writing [] taking at c d v p = cc
drained e e' writing [] (telling content) at c d v p = cc
drained e e' writing [] exiting at c d v p = cc
drained e e' writing [] over at c d v p = ground (arith, v.whole at, append-nil e.sent)
drained e e' writing (msg ∷ rest) s at c d v p = cc
drained e e' done ch s at c d v p = cc

-- Whatever the order of the goroutines' steps, an exec client is sent the texts that were read from the
-- stream, from the first on, in order and without a gap, and behind the last of them the message that
-- the process has exited. When the writer sees the end of its channel all of these have been sent. The
-- write channel is never longer than its capacity.
pub Ran_lem :
    (e : Exec)
    → Ran e
    → ((rest : List Message) × (e.sent ++ rest ≡ said_by e))
      × ((e' : Exec) → exec_move e ends ≡ some e' → e.sent ≡ map output e.taken ++ exit ∷ [])
      × (length e.write_ch ≤ write_capacity)
unfolding exec_move
Ran_lem e r =
    let v = Ran-IsSound e r in
    (v.prefix, λ e' p. drained e e' e.writer e.write_ch e.source refl refl refl v p, v.bound)
