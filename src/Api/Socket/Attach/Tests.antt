-- ===== src/Api/Socket/Attach/Tests.antt =====
-- An example of an attach connection that ends.
use cternal.Prelude.{◌≤◌, ◌≡◌, refl, true, [], ◌∷◌, codes}
use cternal.Session.{offer}
use cternal.Api.Socket.Runs.{stands, runs, IsStuck}
use cternal.Api.Socket.Attach.Delivery.{Reaches, starts, next}
use cternal.Api.Socket.Attach.Moves.{heard}
use cternal.Api.Socket.Attach.Ending.{own_move, move_lem}
use cternal.Api.Socket.Attach.{
  waiting, returned, closed, done, Attach, new_attach, broadcasts, receives, sends, write_fails,
  read_fails, returns, move,
}

-- A text is lost, as the client is gone.
abbrev broken : Attach
broken = record new_attach { reader = waiting; writer = done }

broken-Reaches : Reaches broken (codes "x" ∷ [])
unfolding move new_attach offer heard
broken-Reaches =
    next
      (next (next (next (next starts (broadcasts (codes "x")) refl) receives refl) sends refl)
        write_fails refl)
      read_fails refl

abbrev left : Attach
left = record broken { reader = returned; sub = record { ch = []; done = true } }

move_lem_example :
    (1 ≤ 260)
    × (IsStuck own_move left
        → (left.reader ≡ returned) × (left.sub.done ≡ true) × (left.forwarder ≡ closed))
unfolding own_move move new_attach
move_lem_example =
    move_lem broken left (codes "x" ∷ []) 1 broken-Reaches refl refl (runs stands returns refl)
