-- ===== src/Api/Socket/Tests.antt =====
-- Examples of WebSocket connections.
use cternal.Prelude.{
  ℕ, ◌≡◌, ◌≢◌, ◌≤◌, refl, arith, Bool, true, false, Option, none, some, List, [], ◌∷◌, ◌++◌, Bytes,
  codes, bytes_eq, ◌==◌, if◌then◌else◌, length,
}
use cternal.Prelude.Int.{ℤ, pos, ◌+ℤ◌}
use cternal.Dict.{lookup}
use cternal.Session.{disconnected, ch_capacity, offer}
use cternal.Store
use cternal.Store.{err, session_not_found}
use cternal.Ttl
use cternal.Ttl.{pending}
use cternal.Ttl.Countdown
use cternal.Api.Invariant.{IsSound}
use cternal.Api.Teardown.{expire}
use cternal.Api.Socket.{Wire, open_socket, close_socket}
use cternal.Api.Socket.Messages.{inputs, written, all_typed, dispatch_all, dispatch_all_lem}
use cternal.Api.Socket.Lifecycle.{close_socket_lem, close_evicts_others}
use cternal.Api.Socket.Attach.{
  Attach, writing, idle, waiting, new_attach, broadcasts, move, write_capacity,
}
use cternal.Api.Socket.Attach.Moves.{heard, queue}
use cternal.Api.Socket.Attach.Delivery.{starts, next, Reaches_lem}
use cternal.Api.Socket.Attach.Waiting.{IsIdle, move-IsIdle}
use cternal.Api.Tests.{server-IsSound}
use cternal.Samples.{floats, json, recording, store, server}

abbrev second_fails : ℕ → Bool
second_fails i = i == 1

-- A message here is its type's first letter and the data behind it.
abbrev decode : Bytes → Option Bytes
decode [] = none
decode (c ∷ rest) = if c == b'i' then some (codes "input") else some (codes "resize")

abbrev behind : Bytes → Option Bytes
behind [] = none
behind (c ∷ rest) = some rest

abbrev wire : Wire
wire = record { decode_type = decode; decode_input = behind; decode_resize = λ raw. some (120, 40) }

abbrev sent_messages : List (Bytes × ℤ)
sent_messages = (codes "il", pos 120) ∷ (codes "r", pos 121) ∷ (codes "is", pos 122) ∷ []

dispatch_all_lem_example :
    let s' = dispatch_all wire server 0 sent_messages in
    (inputs (s'.heap 0).recorder.events ≡ inputs recording ++ all_typed wire sent_messages)
    × (written 7 s'.calls ≡ written 7 [] ++ all_typed wire sent_messages)
dispatch_all_lem_example = dispatch_all_lem wire sent_messages server 0 7 refl

close_socket_lem_example :
    let s' = close_socket server (codes "a") 0 (pos 200) in
    ((s'.heap 0).status ≡ disconnected)
    × (s'.ttl_mgr.clocks 1
        ≡ record { session_id = codes "a"; due = pos 200 +ℤ pos 10; phase = pending })
    × ((u : ℕ)
        → u ≢ 1
        → (s'.ttl_mgr.clocks u).session_id ≡ codes "a"
        → Ttl.was_pending (s'.ttl_mgr.clocks u).phase ≡ false)
    × IsSound s'
close_socket_lem_example = close_socket_lem server (codes "a") 0 (pos 200) server-IsSound

close_evicts_others_example :
    let s1 = (open_socket server (codes "a") true second_fails).0 in
    let s2 = (open_socket s1 (codes "a") true second_fails).0 in
    let s3 = close_socket s2 (codes "a") 0 (pos 200) in
    let s4 = expire floats json s3 s2.ttl_mgr.made (pos 210) in
    (s3.connections ≡ 0 ∷ [])
    × ((s3.heap 0).status ≡ disconnected)
    × (Store.get s4.store (codes "a") ≡ err session_not_found)
    × (s4.connections ≡ 0 ∷ [])
unfolding Store.get lookup bytes_eq ◌+ℤ◌
close_evicts_others_example =
    close_evicts_others floats json server (codes "a") 0 second_fails (pos 200) (pos 210)
      server-IsSound (λ e. cc) refl (omega arith)

abbrev one_heard : Attach
one_heard = record new_attach { sub = offer (codes "x") new_attach.sub }

Reaches_lem_example :
    ((rest : List Bytes) × (one_heard.sent ++ rest ≡ codes "x" ∷ []))
    × (one_heard.writer ≡ writing → one_heard.sent ++ queue one_heard ≡ codes "x" ∷ [])
    × (length one_heard.sub.ch ≤ ch_capacity)
    × (length one_heard.write_ch ≤ write_capacity)
unfolding move heard offer new_attach
Reaches_lem_example =
    Reaches_lem one_heard (codes "x" ∷ []) (next starts (broadcasts (codes "x")) refl)

abbrev left_alone : Attach
left_alone = record {
  reader = waiting;
  sub = record { ch = []; done = false };
  forwarder = idle;
  write_ch = [];
  writer = writing;
  sent = codes "x" ∷ [];
}

left_alone-IsIdle : IsIdle left_alone
left_alone-IsIdle = record {
  reader = refl;
  subscribed = refl;
  ch = refl;
  forwarder = refl;
  write_ch = refl;
  writer = refl;
}

move-IsIdle_example : (content : Bytes) × (broadcasts (codes "y") ≡ broadcasts content)
unfolding move
move-IsIdle_example =
    move-IsIdle left_alone (record left_alone { sub = offer (codes "y") left_alone.sub })
      (broadcasts (codes "y")) left_alone-IsIdle refl
