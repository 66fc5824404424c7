-- ===== src/Ttl/Countdown.antt =====
-- Which countdowns are running, and what stops one.
use cternal.Prelude.{
  ℕ, ◌<◌, ◌≡◌, ◌≢◌, refl, sym, ap, ◌∙◌, arith, true, false, Bool-cases, Option-cases, inl, inr,
  none, some, Bytes, bytes_eq_iff, bytes_eq_refl, ◌==◌, ==_iff,
}
use cternal.Prelude.Int.{ℤ, ◌+ℤ◌}
use cternal.Dict.{lookup, lookup-insert, lookup-delete}
use cternal.Ttl.{
  Manager, Phase, pending, fired, stopped, was_pending, stop_phase, new_manager, stop, arm,
  start_ttl, cancel_ttl, remove, forget,
}

-- The map's timers are made and theirs is the session that they stand under, and a timer that may still
-- fire stands in the map.
pub record IsSound (m : Manager) : Type 0 where
  pub known :
      (id : Bytes) (t : ℕ)
      → lookup id m.timers ≡ some t
      → (t < m.made) × ((m.clocks t).session_id ≡ id)
  pub tracked :
      (t : ℕ)
      → was_pending (m.clocks t).phase ≡ true
      → lookup (m.clocks t).session_id m.timers ≡ some t

pub new_manager-IsSound : (ttl : ℤ) → IsSound (new_manager ttl)
unfolding new_manager
new_manager-IsSound ttl = record { known = λ id t h. unfold lookup in cc; tracked = λ t h. cc }

not-pending-stop : (p : Phase) → was_pending (stop_phase p) ≡ false
not-pending-stop pending = refl
not-pending-stop fired = refl
not-pending-stop stopped = refl

-- No timer of the session may still fire.
abbrev pub Idle : Manager → Bytes → Type 0
Idle m id = (t : ℕ) → (m.clocks t).session_id ≡ id → was_pending (m.clocks t).phase ≡ false

stop-Idle :
    (m : Manager) (id : Bytes) (t : ℕ)
    → IsSound m
    → lookup id m.timers ≡ some t
    → Idle (stop m t) id
unfolding stop
stop-Idle m id t v e u s = elim (Bool-cases (was_pending (m.clocks u).phase)) [
  | inl run ↦ ground (arith, v.tracked u run, not-pending-stop (m.clocks t).phase)
  | inr idle ↦ ground (arith, not-pending-stop (m.clocks t).phase)
]

absent-Idle : (m : Manager) (id : Bytes) → IsSound m → lookup id m.timers ≡ none → Idle m id
absent-Idle m id v e u s = elim (Bool-cases (was_pending (m.clocks u).phase)) [
  | inl run ↦ ground (arith, v.tracked u run)
  | inr idle ↦ idle
]

stop-IsSound : (m : Manager) (t : ℕ) → IsSound m → IsSound (stop m t)
unfolding stop
stop-IsSound m t v = record {
  known = λ id u h. ground (arith, v.known id u h);
  tracked = λ u h. ground (arith, v.tracked u, not-pending-stop (m.clocks t).phase);
}

arm-IsSound : (m : Manager) (id : Bytes) (now : ℤ) → IsSound m → Idle m id → IsSound (arm m id now)
unfolding arm
arm-IsSound m id now v idle = record {
  known =
      λ j t h. ground (arith, lookup-insert id j m.made m.timers, bytes_eq_iff id j, v.known j t);
  tracked = λ t h. ground (
    arith,
    lookup-insert id (m.clocks t).session_id m.made m.timers,
    lookup-insert id id m.made m.timers,
    bytes_eq_refl id,
    bytes_eq_iff id (m.clocks t).session_id,
    v.tracked t,
    idle t,
  );
}

pub start_ttl-IsSound :
    (m : Manager) (id : Bytes) (now : ℤ) → IsSound m → IsSound (start_ttl m id now)
unfolding start_ttl
start_ttl-IsSound m id now v = elim (Option-cases (lookup id m.timers)) [
  | inl e ↦ rw (e, start_ttl) (arm-IsSound m id now v (absent-Idle m id v e))
  | inr (t, e) ↦
      rw (e, start_ttl) (arm-IsSound (stop m t) id now (stop-IsSound m t v) (stop-Idle m id t v e))
]

-- Without an entry for a session that has no countdown, the manager is as sound.
pub drop-IsSound : (m : Manager) (id : Bytes) → IsSound m → Idle m id → IsSound (forget m id)
unfolding forget
drop-IsSound m id v idle = record {
  known = λ j t h. ground (arith, lookup-delete id j m.timers, v.known j t);
  tracked = λ t h. ground (
    arith,
    lookup-delete id (m.clocks t).session_id m.timers,
    bytes_eq_iff id (m.clocks t).session_id,
    v.tracked t,
    idle t,
  );
}

stop-other :
    (m : Manager) (id : Bytes) (t u : ℕ)
    → IsSound m
    → lookup id m.timers ≡ some t
    → (m.clocks u).session_id ≢ id
    → (stop m t).clocks u ≡ m.clocks u
unfolding stop
stop-other m id t u v e n = elim (Bool-cases (t == u)) [
  | inl same ↦
      absurd (
        n (
          ap (λ (w : ℕ). (m.clocks w).session_id) (sym ((==_iff t u).0 same)) ∙ (v.known id t e).1))
  | inr other ↦ rw other refl
]

pub cancel_ttl-IsSound : (m : Manager) (id : Bytes) → IsSound m → IsSound (cancel_ttl m id).0
unfolding cancel_ttl forget
cancel_ttl-IsSound m id v = elim (Option-cases (lookup id m.timers)) [
  | inl e ↦ rw (e, cancel_ttl) v
  | inr (t, e) ↦ elim (Bool-cases (was_pending (m.clocks t).phase)) [
    | inl run ↦
        rw (e, cancel_ttl, run)
          (drop-IsSound (stop m t) id (stop-IsSound m t v) (stop-Idle m id t v e))
    | inr idle ↦ rw (e, cancel_ttl, idle) (stop-IsSound m t v)
  ]
]

-- After `CancelTTL` no timer of the session can fire, whatever it returns, and no timer of another
-- session is touched. It returns true exactly if a timer of the session could still fire before.
pub cancel_ttl_lem :
    (m : Manager) (id : Bytes)
    → IsSound m
    → let (m', stopped_now) = cancel_ttl m id in
      Idle m' id
      × ((t : ℕ) → (m.clocks t).session_id ≢ id → m'.clocks t ≡ m.clocks t)
      × (stopped_now ≡ true
          → (t : ℕ) × ((m.clocks t).session_id ≡ id) × (was_pending (m.clocks t).phase ≡ true))
      × (stopped_now ≡ false → Idle m id)
unfolding cancel_ttl
cancel_ttl_lem m id v = elim (Option-cases (lookup id m.timers)) [
  | inl e ↦
      rw (e, cancel_ttl) (absent-Idle m id v e, λ t n. refl, λ h. cc, λ h. absent-Idle m id v e)
  | inr (t, e) ↦ elim (Bool-cases (was_pending (m.clocks t).phase)) [
    | inl run ↦
        rw (e, cancel_ttl, run)
          (
            stop-Idle m id t v e,
            λ u n. stop-other m id t u v e n,
            λ _. (t, (v.known id t e).1, run),
            λ h. cc,
          )
    | inr idle ↦
        rw (e, cancel_ttl, idle)
          (
            stop-Idle m id t v e,
            λ u n. stop-other m id t u v e n,
            λ h. cc,
            λ _ u s. elim (Bool-cases (was_pending (m.clocks u).phase)) [
              | inl run ↦ ground (arith, v.tracked u run)
              | inr still ↦ still
            ],
          )
  ]
]

-- After `Remove` no timer of the session can fire, and no timer of another session is touched.
pub remove_lem :
    (m : Manager) (id : Bytes)
    → IsSound m
    → IsSound (remove m id)
      × Idle (remove m id) id
      × ((t : ℕ) → (m.clocks t).session_id ≢ id → (remove m id).clocks t ≡ m.clocks t)
unfolding remove
remove_lem m id v = elim (Option-cases (lookup id m.timers)) [
  | inl e ↦ rw (e, remove) (v, absent-Idle m id v e, λ t n. refl)
  | inr (t, e) ↦
      let s = stop-IsSound m t v in
      let i = stop-Idle m id t v e in
      rw (e, remove)
        (unfold forget in drop-IsSound (stop m t) id s i, i, λ u n. stop-other m id t u v e n)
]

-- After `StartTTL` the session's one timer that can fire is the new one, due when the time to live has
-- passed from now; no timer of another session is touched.
pub start_ttl_lem :
    (m : Manager) (id : Bytes) (now : ℤ)
    → IsSound m
    → let m' = start_ttl m id now in
      (m'.clocks m.made ≡ record { session_id = id; due = now +ℤ m.ttl; phase = pending })
      × ((t : ℕ)
          → t ≢ m.made
          → (m'.clocks t).session_id ≡ id
          → was_pending (m'.clocks t).phase ≡ false)
      × ((t : ℕ) → t ≢ m.made → (m.clocks t).session_id ≢ id → m'.clocks t ≡ m.clocks t)
unfolding start_ttl arm
start_ttl_lem m id now v = elim (Option-cases (lookup id m.timers)) [
  | inl e ↦
      rw (e, start_ttl)
        (ground arith, λ t n s. ground (arith, absent-Idle m id v e t), λ t n o. ground arith)
  | inr (t, e) ↦
      rw (e, start_ttl)
        (
          ground arith,
          λ u n s. ground (arith, stop-Idle m id t v e u),
          λ u n o. ground (arith, stop-other m id t u v e o),
        )
]

pub cancel_ttl-ttl : (m : Manager) (id : Bytes) → (cancel_ttl m id).0.ttl ≡ m.ttl
unfolding cancel_ttl stop
cancel_ttl-ttl m id = elim (Option-cases (lookup id m.timers)) [
  | inl e ↦ rw (cancel_ttl, e)
  | inr (t, e) ↦ elim (Bool-cases (was_pending (m.clocks t).phase)) [
    | inl run ↦ rw (cancel_ttl, e, run)
    | inr idle ↦ rw (cancel_ttl, e, idle)
  ]
]
