-- ===== src/Api/Socket/Attach/Ending.antt =====
-- How an attach connection ends once a write to its client has failed.
use cternal.Prelude.{
  ℕ, ◌+◌, ◌*◌, ◌≤◌, ◌<◌, ◌≡◌, refl, arith, true, Option, none, some, List, [], ◌∷◌, Bytes, length,
  length-append,
}
use cternal.Api.Socket.Attach.{
  Reader, reading, waiting, returned, Forwarder, idle, holding, closed, done, Attach, new_attach,
  Move, broadcasts, reads, read_fails, receives, sees_done, sends, gives_up, writes, write_fails,
  ends, returns, receive, move_reader, move_forwarder, move_writer, move,
}
use cternal.Api.Socket.Attach.Delivery.{Reaches, starts, next, Reaches_lem}
use cternal.Session.{offer}
use cternal.Api.Socket.Runs.{Runs, IsStuck, Runs-bound}
use cternal.Api.Socket.Exec.Ending.{is_deaf, writer_left, reader_left}

-- The steps of the connection's own goroutines: the pump of the container's stream is not one of them.
unfoldable pub own_move : Attach → Move → Option Attach
unfolding move
own_move a (broadcasts content) = none
own_move a m = move a m

-- A text that waits in the subscription may be received, sent and written.
abbrev forwarder_left : Forwarder → ℕ
forwarder_left idle = 1
forwarder_left (holding content) = 3
forwarder_left closed = 0

abbrev left : Attach → ℕ
left a =
    3 * length a.sub.ch
    + forwarder_left a.forwarder
    + length a.write_ch
    + writer_left a.writer
    + reader_left a.reader

record IsEnding (a : Attach) : Type 0 where
  pub writer : a.writer ≡ done
  pub reader : is_deaf a.reader ≡ true
  pub over : a.reader ≡ returned → a.sub.done ≡ true

sends-IsEnding :
    (a a' : Attach) (f : Forwarder)
    → a.forwarder ≡ f
    → IsEnding a
    → move_forwarder a sends f ≡ some a'
    → IsEnding a' × (left a' < left a)
unfolding move_forwarder
sends-IsEnding a a' idle e v p = absurd (ground arith)
sends-IsEnding a a' closed e v p = absurd (ground arith)
sends-IsEnding a a' (holding content) e v p =
    ground (arith, v.writer, v.reader, v.over, length-append a.write_ch (content ∷ []))

own_move-IsEnding :
    (a a' : Attach) (m : Move)
    → IsEnding a
    → own_move a m ≡ some a'
    → IsEnding a' × (left a' < left a)
unfolding own_move move move_reader move_forwarder move_writer receive
own_move-IsEnding a a' (broadcasts content) v p = absurd (ground arith)
own_move-IsEnding a a' reads v p = absurd (ground (arith, v.reader))
own_move-IsEnding a a' read_fails v p = absurd (ground (arith, v.reader))
own_move-IsEnding a a' receives v p = ground (arith, v.writer, v.reader, v.over)
own_move-IsEnding a a' sees_done v p = ground (arith, v.writer, v.reader, v.over)
own_move-IsEnding a a' sends v p = sends-IsEnding a a' a.forwarder refl v p
own_move-IsEnding a a' gives_up v p = ground (arith, v.writer, v.reader, v.over)
own_move-IsEnding a a' writes v p = ground (arith, v.writer, v.reader, v.over)
own_move-IsEnding a a' write_fails v p = ground (arith, v.writer, v.reader, v.over)
own_move-IsEnding a a' ends v p = ground (arith, v.writer, v.reader, v.over)
own_move-IsEnding a a' returns v p = ground (arith, v.writer, v.reader, v.over)

Unsubscribes : Attach → Type 0
Unsubscribes a = a.reader ≡ returned → a.sub.done ≡ true

move-Unsubscribes :
    (a a' : Attach) (m : Move) → Unsubscribes a → move a m ≡ some a' → Unsubscribes a'
unfolding Unsubscribes move move_reader move_forwarder move_writer receive offer
move-Unsubscribes a a' (broadcasts content) v p r = ground (arith, v)
move-Unsubscribes a a' m v p r = ground (arith, v)

Reaches-Unsubscribes : (a : Attach) (taken : List Bytes) → Reaches a taken → Unsubscribes a
unfolding Unsubscribes new_attach
Reaches-Unsubscribes _ _ starts r = absurd (ground arith)
Reaches-Unsubscribes _ _ (next {a = a} {a' = a'} {taken = taken} w m p) r =
    move-Unsubscribes a a' m (Reaches-Unsubscribes a taken w) p r

reader_stuck :
    (a : Attach) (r : Reader)
    → a.reader ≡ r
    → is_deaf r ≡ true
    → a.writer ≡ done
    → IsStuck own_move a
    → r ≡ returned
unfolding IsStuck own_move move move_reader
reader_stuck a reading er deaf w stuck = cc
reader_stuck a waiting er deaf w stuck = ground (arith, stuck returns)
reader_stuck a returned er deaf w stuck = refl

forwarder_stuck :
    (a : Attach) (f : Forwarder)
    → a.forwarder ≡ f
    → a.writer ≡ done
    → a.sub.done ≡ true
    → IsStuck own_move a
    → f ≡ closed
unfolding IsStuck own_move move move_forwarder
forwarder_stuck a idle ef w over stuck = ground (arith, stuck sees_done)
forwarder_stuck a (holding content) ef w over stuck = ground (arith, stuck gives_up)
forwarder_stuck a closed ef w over stuck = refl

-- Once the client of an attach connection is gone and a write to it has failed, the connection ends: in whatever
-- order its goroutines run, they take at most 260 steps more, unless more is broadcast to it; and where they
-- can take no further step the handler has returned, its subscription is over, and the forwarder has
-- ended.
pub move_lem :
    (a a' : Attach) (taken : List Bytes) (n : ℕ)
    → Reaches a taken
    → a.writer ≡ done
    → is_deaf a.reader ≡ true
    → Runs own_move a n a'
    → (n ≤ 260)
      × (IsStuck own_move a'
          → (a'.reader ≡ returned) × (a'.sub.done ≡ true) × (a'.forwarder ≡ closed))
unfolding Unsubscribes
move_lem a a' taken n r failed deaf run =
    let (prefix, whole, ch_bound, bound) = Reaches_lem a taken r in
    let (v, le) =
      Runs-bound own_move IsEnding left own_move-IsEnding a a' n
        (record { writer = failed; reader = deaf; over = Reaches-Unsubscribes a taken r }) run in
    (
      ground (arith, le, bound, ch_bound, failed),
      λ stuck.
          let back = reader_stuck a' a'.reader refl v.reader v.writer stuck in
          (back, v.over back, forwarder_stuck a' a'.forwarder refl v.writer (v.over back) stuck),
    )
