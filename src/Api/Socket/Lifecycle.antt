-- ===== src/Api/Socket/Lifecycle.antt =====
-- A session while clients connect to it and leave it.
use cternal.Prelude.{
  ℕ, ◌≡◌, ◌≢◌, refl, ap, ◌∙◌, arith, Bool, true, false, some, List, [], ◌∷◌, Bytes, bytes_eq,
  bytes_eq_iff, ◌==◌, ==_iff, if◌then◌else◌,
}
use cternal.Prelude.Int.{ℤ, ◌+ℤ◌, ◌≤ℤ◌}
use cternal.Session.{Status, active, disconnected, set_status}
use cternal.Floats.{Floats}
use cternal.Recorder.Cast.{Json}
use cternal.Api.Teardown.{expire}
use cternal.Api.Teardown.Ended.{expire-connections, expire_lem}
use cternal.Store
use cternal.Store.{ok, err, session_not_found}
use cternal.Ttl
use cternal.Ttl.{pending}
use cternal.Ttl.Countdown
use cternal.Ttl.Firing
use cternal.Api.{Server}
use cternal.Api.Invariant.{update-IsSound, IsSound}
use cternal.Api.Socket.{connected, flush_events, put_status, open_socket, leave, close_socket}

put_status-IsSound : (s : Server) (p : ℕ) (st : Status) → IsSound s → IsSound (put_status s p st)
unfolding put_status set_status
put_status-IsSound s p st v = update-IsSound s p (set_status (s.heap p) st) refl v

pub open_socket_lem :
    (s : Server) (id : Bytes) (p : ℕ) (write_fails : ℕ → Bool)
    → IsSound s
    → id ≢ []
    → Store.get s.store id ≡ ok p
    → let (s', opening) = open_socket s id true write_fails in
      (opening ≡ connected p (flush_events write_fails (s.heap p)))
      × ((s'.heap p).status ≡ active)
      × (s'.connections ≡ p ∷ s.connections)
      × (s'.store ≡ s.store)
      × Countdown.Idle s'.ttl_mgr id
      × IsSound s'
unfolding open_socket put_status set_status flush_events
open_socket_lem s id p write_fails v n e =
    let m = (Ttl.cancel_ttl s.ttl_mgr id).0 in
    let v1 : IsSound (record s { ttl_mgr = m }) = record {
      registry = v.registry;
      known = v.known;
      countdown = Countdown.cancel_ttl-IsSound s.ttl_mgr id v.countdown;
      counted = v.counted;
    } in
    let v2 = put_status-IsSound (record s { ttl_mgr = m }) p active v1 in
    let idle = (Countdown.cancel_ttl_lem s.ttl_mgr id v.countdown).0 in
    let named : bytes_eq id [] ≡ false = ground (arith, bytes_eq_iff id []) in
    let own : (p == p) ≡ true = (==_iff p p).1 refl in
    rw (open_socket, named, e)
      (
        rw own refl,
        rw own refl,
        refl,
        refl,
        idle,
        record {
          registry = v2.registry;
          known = v2.known;
          countdown = v2.countdown;
          counted = v2.counted;
        },
      )

open_socket-ttl :
    (s : Server) (id : Bytes) (p : ℕ) (write_fails : ℕ → Bool)
    → id ≢ []
    → Store.get s.store id ≡ ok p
    → (open_socket s id true write_fails).0.ttl_mgr.ttl ≡ s.ttl_mgr.ttl
unfolding open_socket put_status
open_socket-ttl s id p write_fails n e =
    let named : bytes_eq id [] ≡ false = ground (arith, bytes_eq_iff id []) in
    rw (open_socket, named, e) (Countdown.cancel_ttl-ttl s.ttl_mgr id)

-- When the loops of a connection have ended its session is disconnected, a countdown of it is begun
-- that is due when the session has been left for the time that is configured, no other countdown of it may fire,
-- and the server stays sound.
pub close_socket_lem :
    (s : Server) (id : Bytes) (p : ℕ) (now : ℤ)
    → IsSound s
    → let s' = close_socket s id p now in
      let t = s.ttl_mgr.made in
      ((s'.heap p).status ≡ disconnected)
      × (s'.ttl_mgr.clocks t
          ≡ record { session_id = id; due = now +ℤ s.ttl_mgr.ttl; phase = pending })
      × ((u : ℕ)
          → u ≢ t
          → (s'.ttl_mgr.clocks u).session_id ≡ id
          → Ttl.was_pending (s'.ttl_mgr.clocks u).phase ≡ false)
      × IsSound s'
unfolding close_socket put_status set_status
close_socket_lem s id p now v =
    let (own, others, rest) = Countdown.start_ttl_lem s.ttl_mgr id now v.countdown in
    let v1 = put_status-IsSound s p disconnected v in
    (
      rw (==_iff p p).1 refl,
      own,
      others,
      record {
        registry = v1.registry;
        known = v1.known;
        countdown = Countdown.start_ttl-IsSound s.ttl_mgr id now v.countdown;
        counted = v1.counted;
      },
    )

close_socket-connections :
    (s : Server) (id : Bytes) (p : ℕ) (now : ℤ)
    → (close_socket s id p now).connections ≡ leave p s.connections
unfolding close_socket put_status
close_socket-connections s id p now = refl

leave-head : (p : ℕ) (ps : List ℕ) → leave p (p ∷ ps) ≡ ps
unfolding leave
leave-head p ps = rw (==_iff p p).1 refl

-- Of two clients of a session that is found, one leaves: the session is then disconnected although the other's handler runs, and
-- when the countdown is due it is torn down: it is not found any more, and the other's handler still runs.
pub close_evicts_others :
    (fl : Floats) (json : Json fl) (s : Server) (id : Bytes) (p : ℕ) (write_fails : ℕ → Bool)
    (now later : ℤ)
    → IsSound s
    → id ≢ []
    → Store.get s.store id ≡ ok p
    → now +ℤ s.ttl_mgr.ttl ≤ℤ later
    → let s1 = (open_socket s id true write_fails).0 in
      let s2 = (open_socket s1 id true write_fails).0 in
      let s3 = close_socket s2 id p now in
      let s4 = expire fl json s3 s2.ttl_mgr.made later in
      (s3.connections ≡ p ∷ s.connections)
      × ((s3.heap p).status ≡ disconnected)
      × (Store.get s4.store id ≡ err session_not_found)
      × (s4.connections ≡ p ∷ s.connections)
close_evicts_others fl json s id p write_fails now later v n e due =
    let s1 = (open_socket s id true write_fails).0 in
    let (_, _, c1, st1, _, v1) = open_socket_lem s id p write_fails v n e in
    let e1 : Store.get s1.store id ≡ ok p = rw st1 e in
    let s2 = (open_socket s1 id true write_fails).0 in
    let (_, _, c2, st2, _, v2) = open_socket_lem s1 id p write_fails v1 n e1 in
    let s3 = close_socket s2 id p now in
    let t = s2.ttl_mgr.made in
    let (left, clock, _, v3) = close_socket_lem s2 id p now v2 in
    let kept : s3.connections ≡ p ∷ s.connections =
      close_socket-connections s2 id p now ∙ ap (leave p) c2 ∙ leave-head p s1.connections ∙ c1 in
    let same_ttl : s2.ttl_mgr.ttl ≡ s.ttl_mgr.ttl =
      open_socket-ttl s1 id p write_fails n e1 ∙ open_socket-ttl s id p write_fails n e in
    let (m, fires) =
      Firing.fire_due s3.ttl_mgr t later (rw clock refl) (rw (clock, same_ttl) due) in
    let fires' : Ttl.fire s3.ttl_mgr t later ≡ some (id, m) = fires ∙ rw clock refl in
    let (_, found) = expire_lem fl json s3 t later id m v3 fires' in
    let own : bytes_eq id id ≡ true = (bytes_eq_iff id id).1 refl in
    let gone : (if bytes_eq id id then err session_not_found else Store.get s3.store id)
        ≡ err session_not_found =
      rw own in
    (kept, left, found id ∙ gone, expire-connections fl json s3 t later id m fires' ∙ kept)
