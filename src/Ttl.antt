-- ===== src/Ttl.antt =====
-- internal/session/ttl.go: a countdown for each session that nobody is connected to. Each method holds
-- the manager's lock, so it is one step. A *time.Timer is a number; it fires when the clock reaches its
-- due time, if it has not been stopped, and then runs its function in a goroutine of its own: the
-- callback, and behind it the removal of the map's entry.
pub mod Countdown
pub mod Firing
mod Tests
use cternal.Prelude.{
  ℕ, suc, Bool, true, false, Option, none, some, List, [], ◌∷◌, Bytes, ◌==◌, if◌then◌else◌,
}
use cternal.Prelude.Int.{ℤ, ltb_ℤ, ◌+ℤ◌}
use cternal.Dict.{Dict, lookup, insert, delete}

pub data Phase : Type 0 where
  pending : Phase
  fired : Phase
  stopped : Phase

pub record Timer : Type 0 where
  pub session_id : Bytes
  pub due : ℤ
  pub phase : Phase

pub record Manager : Type 0 where
  pub timers : Dict ℕ
  pub ttl : ℤ
  pub clocks : ℕ → Timer
  pub made : ℕ

abbrev pub set_clock : (ℕ → Timer) → ℕ → Timer → ℕ → Timer
set_clock f p v q = if p == q then v else f q

unfoldable pub new_manager : ℤ → Manager
new_manager ttl = record {
  timers = [];
  ttl = ttl;
  clocks = λ _. record { session_id = []; due = ttl; phase = stopped };
  made = 0;
}

-- time.Timer.Stop: whether the call stops the timer.
abbrev pub was_pending : Phase → Bool
was_pending pending = true
was_pending fired = false
was_pending stopped = false

abbrev pub stop_phase : Phase → Phase
stop_phase pending = stopped
stop_phase fired = fired
stop_phase stopped = stopped

unfoldable pub stop : Manager → ℕ → Manager
stop m t =
    let c = m.clocks t in
    record m { clocks = set_clock m.clocks t (record c { phase = stop_phase c.phase }) }

-- time.AfterFunc, at a clock that shows `now`, and the entry for the new timer.
arm : Manager → Bytes → ℤ → Manager
arm m id now = record m {
  timers = insert id m.made m.timers;
  clocks =
      set_clock m.clocks m.made (record { session_id = id; due = now +ℤ m.ttl; phase = pending });
  made = suc m.made;
}

unfoldable pub start_ttl : Manager → Bytes → ℤ → Manager
unfolding arm stop
start_ttl m id now = elim (lookup id m.timers) [
  | none ↦ arm m id now
  | some t ↦ arm (stop m t) id now
]

-- The manager after, and whether a timer was stopped before it fired.
unfoldable pub cancel_ttl : Manager → Bytes → Manager × Bool
unfolding stop
cancel_ttl m id = elim (lookup id m.timers) [
  | none ↦ (m, false)
  | some t ↦
      let stopped_now = was_pending (m.clocks t).phase in
      if stopped_now
      then (record (stop m t) { timers = delete id m.timers }, true)
      else (stop m t, false)
]

unfoldable pub remove : Manager → Bytes → Manager
unfolding stop
remove m id = elim (lookup id m.timers) [
  | none ↦ m
  | some t ↦ record (stop m t) { timers = delete id m.timers }
]

-- A timer fires at `now`, if it may: its callback is then about to be called with the session's id.
unfoldable pub fire : Manager → ℕ → ℤ → Option (Bytes × Manager)
fire m t now =
    let c = m.clocks t in
    if was_pending c.phase
    then (if ltb_ℤ now c.due
        then none
        else some
            (c.session_id, record m { clocks = set_clock m.clocks t (record c { phase = fired }) }))
    else none

-- The end of a timer's function, behind the callback.
unfoldable pub forget : Manager → Bytes → Manager
forget m id = record m { timers = delete id m.timers }
