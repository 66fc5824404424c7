-- ===== src/Api/Socket/Exec/Lost.antt =====
-- What becomes of the container's output when the client of an exec connection has left.
use cternal.Prelude.{◌≡◌, refl, ◌∙◌, arith, some, [], ◌∷◌, ◌++◌, Bytes}
use cternal.Api.Socket.Attach.{done}
use cternal.Api.Socket.Exec.{
  taking, telling, Exec, ExecMove, hears, hears_no_more, leaves, takes, stream_ends, tells,
  gives_up, writes, write_fails, ends, exec_reader, tell, stop_telling, exec_source, exec_writer,
  exec_move,
}

-- Any number of steps.
pub data Follows : Exec → Exec → Type 0 where
  here : {e : Exec} → Follows e e
  onward :
      {e e' e'' : Exec} → Follows e e' → (m : ExecMove) → exec_move e' m ≡ some e'' → Follows e e''

-- Nothing that a step does reaches a client who is gone.
abbrev Gone : Exec → Exec → Type 0
Gone e e' = (e'.writer ≡ done) × (e'.sent ≡ e.sent)

exec_move-Gone :
    (e e' : Exec) (m : ExecMove) → e.writer ≡ done → exec_move e m ≡ some e' → Gone e e'
unfolding exec_move exec_reader exec_source exec_writer tell stop_telling
exec_move-Gone e e' hears w p = ground arith
exec_move-Gone e e' hears_no_more w p = ground arith
exec_move-Gone e e' leaves w p = ground arith
exec_move-Gone e e' (takes content) w p = ground arith
exec_move-Gone e e' stream_ends w p = ground arith
exec_move-Gone e e' tells w p = ground arith
exec_move-Gone e e' gives_up w p = ground arith
exec_move-Gone e e' writes w p = ground arith
exec_move-Gone e e' write_fails w p = ground arith
exec_move-Gone e e' ends w p = ground arith

Follows-Gone : (e e' : Exec) → e.writer ≡ done → Follows e e' → Gone e e'
Follows-Gone e _ w here = (w, refl)
Follows-Gone e _ w (onward {e' = e'} {e'' = e''} f m p) =
    let (w', s) = Follows-Gone e e' w f in
    let (w'', s') = exec_move-Gone e' e'' m w' p in (w'', s' ∙ s)

-- An exec connection whose writer is done, even one whose handler has returned, still takes the next
-- text from the container's stream if its source is at a read, and whatever happens then, the
-- connection sends nothing more, so not that text either.
pub takes_lost :
    (e e' : Exec) (content : Bytes)
    → e.writer ≡ done
    → e.source ≡ taking
    → let e1 = record e { source = telling content; taken = e.taken ++ content ∷ [] } in
      Follows e1 e' → (exec_move e (takes content) ≡ some e1) × (e'.sent ≡ e.sent)
unfolding exec_move exec_source
takes_lost e e' content w at f = (
  rw at refl,
  (Follows-Gone (record e { source = telling content; taken = e.taken ++ content ∷ [] }) e' w f).1,
)
