-- ===== src/Ttl/Firing.antt =====
-- When a countdown runs out.
use mathlib.Core.Path.{subst}
use mathlib.Core.Option.{some-injective}
use cternal.Prelude.{
  ℕ, ◌≡◌, refl, sym, ◌∙◌, arith, Bool-cases, inl, inr, ◌⊎◌, none, some, List, [], ◌∷◌, Bytes,
}
use cternal.Prelude.Int.{ℤ, ◌≤ℤ◌}
use cternal.Ttl.{
  Manager, pending, fired, was_pending, set_clock, start_ttl, cancel_ttl, remove, fire,
}
use cternal.Ttl.Countdown.{IsSound, Idle}

-- The manager with a timer that has just fired.
after_fire : Manager → ℕ → Manager
after_fire m t =
    let c = m.clocks t in record m { clocks = set_clock m.clocks t (record c { phase = fired }) }

fire-cases :
    (m : Manager) (t : ℕ) (now : ℤ)
    → (fire m t now ≡ none)
      ⊎ (((m.clocks t).phase ≡ pending)
          × ((m.clocks t).due ≤ℤ now)
          × (fire m t now ≡ some ((m.clocks t).session_id, after_fire m t)))
unfolding fire after_fire
fire-cases m t now = ground arith

-- A timer that is pending and due may fire.
pub fire_due :
    (m : Manager) (t : ℕ) (now : ℤ)
    → (m.clocks t).phase ≡ pending
    → (m.clocks t).due ≤ℤ now
    → (m' : Manager) × (fire m t now ≡ some ((m.clocks t).session_id, m'))
unfolding fire after_fire
fire_due m t now waits due = (after_fire m t, ground arith)

after_fire-IsSound : (m : Manager) (t : ℕ) → IsSound m → IsSound (after_fire m t)
unfolding after_fire
after_fire-IsSound m t v = record {
  known = λ id u h. ground (arith, v.known id u h);
  tracked = λ u h. ground (arith, v.tracked u);
}

fire-after_fire : (m : Manager) (t : ℕ) (now : ℤ) → fire (after_fire m t) t now ≡ none
unfolding fire after_fire
fire-after_fire m t now = ground arith

-- What may happen to a manager while no timer's function is between its callback and its end.
pub data Op : Type 0 where
  starts : Bytes → ℤ → Op
  cancels : Bytes → Op
  removes : Bytes → Op
  fires : ℕ → ℤ → Op

-- A timer that may not fire does not.
unfoldable pub step : Manager → Op → Manager
step m (starts id now) = start_ttl m id now
step m (cancels id) = (cancel_ttl m id).0
step m (removes id) = remove m id
step m (fires t now) = elim (fire m t now) [ none ↦ m | some (id, m') ↦ m' ]

unfoldable pub run : Manager → List Op → Manager
run m [] = m
run m (op ∷ ops) = run (step m op) ops

-- A timer fires only when it is due and has not been stopped, for the session that it was started
-- for, and it fires once.
pub fire_lem :
    (m m' : Manager) (t : ℕ) (now later : ℤ) (id : Bytes)
    → fire m t now ≡ some (id, m')
    → ((m.clocks t).phase ≡ pending)
      × ((m.clocks t).due ≤ℤ now)
      × ((m.clocks t).session_id ≡ id)
      × (fire m' t later ≡ none)
fire_lem m m' t now later id e = elim (fire-cases m t now) [
  | inl never ↦ cc
  | inr (waits, due, e') ↦
      subst
        (λ (x : Bytes × Manager).
          ((m.clocks t).phase ≡ pending)
          × ((m.clocks t).due ≤ℤ now)
          × ((m.clocks t).session_id ≡ x.0)
          × (fire x.1 t later ≡ none))
        (some-injective _ _ (sym e' ∙ e)) (waits, due, refl, fire-after_fire m t later)
]

-- A timer that has fired leaves its session with no countdown.
pub fire-IsSound :
    (m m' : Manager) (t : ℕ) (now : ℤ) (id : Bytes)
    → IsSound m
    → fire m t now ≡ some (id, m')
    → IsSound m' × Idle m' id
fire-IsSound m m' t now id v e = elim (fire-cases m t now) [
  | inl never ↦ cc
  | inr (waits, due, e') ↦
      let idle : Idle (after_fire m t) (m.clocks t).session_id =
        unfold after_fire in
        λ u s. elim (Bool-cases (was_pending (m.clocks u).phase)) [
          | inl run ↦ ground (arith, v.tracked u run, v.tracked t)
          | inr still ↦ ground arith
        ] in
      subst (λ (x : Bytes × Manager). IsSound x.1 × Idle x.1 x.0) (some-injective _ _ (sym e' ∙ e))
        (after_fire-IsSound m t v, idle)
]
