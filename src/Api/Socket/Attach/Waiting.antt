-- ===== src/Api/Socket/Attach/Waiting.antt =====
-- How an attach connection ends, and what it may wait for.
use cternal.Prelude.{◌≡◌, refl, arith, false, some, [], Bytes}
use cternal.Api.Socket.Attach.{
  waiting, idle, writing, Attach, Move, broadcasts, reads, read_fails, receives, sees_done, sends,
  gives_up, writes, write_fails, ends, returns, move, move_reader, move_forwarder, move_writer,
  receive,
}

-- A connection whose client has left, with nothing under way to it.
pub record IsIdle (a : Attach) : Type 0 where
  pub reader : a.reader ≡ waiting
  pub subscribed : a.sub.done ≡ false
  pub ch : a.sub.ch ≡ []
  pub forwarder : a.forwarder ≡ idle
  pub write_ch : a.write_ch ≡ []
  pub writer : a.writer ≡ writing

-- When its client has left and nothing is under way to it, an attach connection can take no step but
-- to be given a text of the container: until then the handler does not return.
pub move-IsIdle :
    (a a' : Attach) (m : Move)
    → IsIdle a
    → move a m ≡ some a'
    → (content : Bytes) × (m ≡ broadcasts content)
unfolding move move_reader move_forwarder move_writer receive
move-IsIdle a a' (broadcasts content) v e = (content, refl)
move-IsIdle a a' reads v e = cc
move-IsIdle a a' read_fails v e = cc
move-IsIdle a a' receives v e = ground arith
move-IsIdle a a' sees_done v e = ground arith
move-IsIdle a a' sends v e = ground arith
move-IsIdle a a' gives_up v e = ground arith
move-IsIdle a a' writes v e = ground arith
move-IsIdle a a' write_fails v e = ground arith
move-IsIdle a a' ends v e = ground arith
move-IsIdle a a' returns v e = ground arith
