-- ===== src/Api/Socket/Attach/Delivery.antt =====
-- What an attach connection delivers, whatever the order in which its goroutines run.
use cternal.Prelude.{
  ◌≤◌, ◌≡◌, refl, sym, ap, ◌∙◌, arith, some, List, [], ◌∷◌, ◌++◌, Bytes, length, append_assoc,
}
use cternal.Session.{ch_capacity}
use cternal.Api.Socket.Attach.{
  Forwarder, idle, holding, closed, Writer, writing, done, Attach, write_capacity, new_attach, Move,
  broadcasts, reads, read_fails, receives, sees_done, sends, gives_up, writes, write_fails, ends,
  returns, move, move_writer,
}
use cternal.Api.Socket.Attach.Moves.{
  held, queue, heard, IsSound, new_attach-IsSound, same, broadcasts-IsSound, reads-IsSound,
  read_fails-IsSound, returns-IsSound, receives-IsSound, sees_done-IsSound, sends-IsSound,
  gives_up-IsSound,
}

-- The states that a connection may get to, with what its subscription has taken until then.
pub data Reaches : Attach → List Bytes → Type 0 where
  starts : Reaches new_attach []
  next :
      {a a' : Attach} {taken : List Bytes}
      → Reaches a taken
      → (m : Move) → move a m ≡ some a'
      → Reaches a' (heard taken a m)

writes-IsSound :
    (a a' : Attach) (taken : List Bytes) (w : Writer) (ch : List Bytes) (f : Forwarder)
    → a.write_ch ≡ ch
    → IsSound a taken
    → a.writer ≡ w
    → move_writer a writes w ch f ≡ some a'
    → IsSound a' taken
unfolding move_writer queue
writes-IsSound a a' taken writing [] f c v at e = cc
writes-IsSound a a' taken writing (content ∷ rest) f c v at e =
    let on_way = held a.forwarder ++ a.sub.ch in
    let all_of : a.sent ++ content ∷ [] ++ (rest ++ on_way) ≡ taken =
      append_assoc a.sent (content ∷ []) (rest ++ on_way)
      ∙ ap (λ xs. a.sent ++ (xs ++ on_way)) (sym c)
      ∙ v.whole at in
    same e (record {
      whole = λ w. all_of;
      prefix = (rest ++ on_way, all_of);
      ch_bound = v.ch_bound;
      write_bound = ground (arith, v.write_bound);
    })
writes-IsSound a a' taken done ch f c v at e = cc

write_fails-IsSound :
    (a a' : Attach) (taken : List Bytes) (w : Writer) (ch : List Bytes) (f : Forwarder)
    → a.write_ch ≡ ch
    → IsSound a taken
    → move_writer a write_fails w ch f ≡ some a'
    → IsSound a' taken
unfolding move_writer
write_fails-IsSound a a' taken writing [] f c v e = cc
write_fails-IsSound a a' taken writing (content ∷ rest) f c v e = same e (record {
  whole = λ w. ground arith;
  prefix = v.prefix;
  ch_bound = v.ch_bound;
  write_bound = ground (arith, v.write_bound);
})
write_fails-IsSound a a' taken done ch f c v e = cc

ends-IsSound :
    (a a' : Attach) (taken : List Bytes) (w : Writer) (ch : List Bytes) (f : Forwarder)
    → IsSound a taken
    → move_writer a ends w ch f ≡ some a'
    → IsSound a' taken
unfolding move_writer
ends-IsSound a a' taken writing [] idle v e = cc
ends-IsSound a a' taken writing [] (holding content) v e = cc
ends-IsSound a a' taken writing [] closed v e = same e (record {
  whole = λ w. ground arith;
  prefix = v.prefix;
  ch_bound = v.ch_bound;
  write_bound = v.write_bound;
})
ends-IsSound a a' taken writing (content ∷ rest) f v e = cc
ends-IsSound a a' taken done ch f v e = cc

move-IsSound :
    (a a' : Attach) (taken : List Bytes) (m : Move)
    → IsSound a taken
    → move a m ≡ some a'
    → IsSound a' (heard taken a m)
unfolding move heard
move-IsSound a a' taken (broadcasts content) v e = same e (broadcasts-IsSound a taken content v)
move-IsSound a a' taken reads v e = reads-IsSound a a' taken a.reader v e
move-IsSound a a' taken read_fails v e = read_fails-IsSound a a' taken a.reader v e
move-IsSound a a' taken receives v e = receives-IsSound a a' taken a.forwarder refl v e
move-IsSound a a' taken sees_done v e = sees_done-IsSound a a' taken a.forwarder refl v e
move-IsSound a a' taken sends v e = sends-IsSound a a' taken a.forwarder refl v e
move-IsSound a a' taken gives_up v e = gives_up-IsSound a a' taken a.forwarder v e
move-IsSound a a' taken writes v e =
    writes-IsSound a a' taken a.writer a.write_ch a.forwarder refl v refl e
move-IsSound a a' taken write_fails v e =
    write_fails-IsSound a a' taken a.writer a.write_ch a.forwarder refl v e
move-IsSound a a' taken ends v e = ends-IsSound a a' taken a.writer a.write_ch a.forwarder v e
move-IsSound a a' taken returns v e = returns-IsSound a a' taken a.reader v e

Reaches-IsSound : (a : Attach) (taken : List Bytes) → Reaches a taken → IsSound a taken
Reaches-IsSound _ _ starts = new_attach-IsSound
Reaches-IsSound _ _ (next {a} {a'} {taken} r m e) =
    move-IsSound a a' taken m (Reaches-IsSound a taken r) e

-- Whatever the order of the goroutines' steps, the client is sent what its subscription has taken, from
-- the first text on and in order, without a gap. While the writer runs nothing is lost: what is not yet
-- sent is in the two queues and the forwarder's hands. Neither queue is longer than its capacity.
pub Reaches_lem :
    (a : Attach) (taken : List Bytes)
    → Reaches a taken
    → ((rest : List Bytes) × (a.sent ++ rest ≡ taken))
      × (a.writer ≡ writing → a.sent ++ queue a ≡ taken)
      × (length a.sub.ch ≤ ch_capacity)
      × (length a.write_ch ≤ write_capacity)
Reaches_lem a taken r =
    let v = Reaches-IsSound a taken r in (v.prefix, v.whole, v.ch_bound, v.write_bound)
