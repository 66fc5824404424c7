-- ===== src/Recorder/Player/Pace.antt =====
-- When a playback writes what.
use mathlib.Core.List.{map-append}
use cternal.Prelude.{
  ℕ, suc, ◌^◌, ◌≡◌, ◌≢◌, refl, ◌∙◌, arith, true, false, Bool-cases, inl, inr, ◌⊎◌, some, List, [],
  ◌∷◌, ◌++◌, map, append-nil, append_assoc, Bytes, if◌then◌else◌, keep, drop, length, leb,
}
use cternal.Prelude.Int.{ℤ, pos, negsuc, ◌≤ℤ◌, ◌+ℤ◌, ◌-ℤ◌, sub64-eq, int_laws}
use cternal.Floats.{Floats}
use cternal.Recorder.{Event, is_output}
use cternal.Recorder.Player.{
  Player, Surroundings, Playback, finished, new_player, new_player_from, play_loop, play, delay_of,
  stops, after_wait,
}

-- The texts are a first part of others.
abbrev pub IsPrefix : List Bytes → List Bytes → Type 0
IsPrefix xs ys = (rest : List Bytes) × (xs ++ rest ≡ ys)

abbrev pub texts : List Event → List Bytes
texts evs = map (λ (ev : Event). ev.content) (keep is_output evs)

abbrev said : List (ℤ × Bytes) → List Bytes
said = map (λ (w : ℤ × Bytes). w.1)

said-snoc :
    (ws : List (ℤ × Bytes)) (w : ℤ × Bytes) (ts : List Bytes)
    → said (ws ++ w ∷ []) ++ ts ≡ said ws ++ w.1 ∷ ts
said-snoc ws w ts = simp (map-append, append_assoc)

-- Nothing interrupts a playback, and each write succeeds.
pub record IsCalm (env : Surroundings) : Type 0 where
  pub goes : (i : ℕ) → env.interrupts i ≡ false
  pub works : (i : ℕ) → env.write_fails i ≡ false

-- Each event is one of output, at a time not before the one behind it and of at most 2 ^ 53 ns.
abbrev pub Steady : ℤ → List Event → Type 0
Steady prev [] = Unit {0}
Steady prev (ev ∷ evs) =
    (is_output ev ≡ true) × (prev ≤ℤ ev.time) × (ev.time ≤ℤ pos (2 ^ 53)) × Steady ev.time evs

module _ (fl : Floats) where
  -- The index at which `NewPlayerFrom` starts.
  abbrev pub start_index : List Event → ℤ → ℕ
  start_index events (pos n) = if leb n (length events) then n else length events
  start_index events (negsuc n) = 0

  -- Any index, negative or past the end, gives a player and no panic: the events from the index on,
  -- all of them for a negative one, none for one past the end.
  pub new_player_from-drop :
      (events : List Event) (speed : fl.Float) (seek_index : ℤ)
      → new_player_from fl events speed seek_index
        ≡ some (new_player fl (drop (start_index events seek_index) events) speed)
  unfolding new_player_from
  new_player_from-drop events speed (pos n) = ground arith
  new_player_from-drop events speed (negsuc n) = ground arith

  module _ (env : Surroundings) (speed : fl.Float) where
    loop-write :
        (ev : Event) (evs : List Event) (i : ℕ) (prev waited : ℤ) (written : List (ℤ × Bytes))
        → let delay = delay_of fl speed prev ev.time in
          is_output ev ≡ true
          → stops fl env i delay ≡ false
          → env.write_fails i ≡ false
          → play_loop fl env speed (ev ∷ evs) i prev waited written
            ≡ play_loop fl env speed evs
                (suc i)
                ev.time
                (after_wait fl waited delay)
                (written ++ (after_wait fl waited delay, ev.content) ∷ [])
    unfolding play_loop
    loop-write ev evs i prev waited written out goes works = ground arith

    loop-other :
        (ev : Event) (evs : List Event) (i : ℕ) (prev waited : ℤ) (written : List (ℤ × Bytes))
        → is_output ev ≡ false
        → play_loop fl env speed (ev ∷ evs) i prev waited written
          ≡ play_loop fl env speed evs (suc i) ev.time waited written
    unfolding play_loop
    loop-other ev evs i prev waited written other = ground arith

    loop-cut :
        (ev : Event) (evs : List Event) (i : ℕ) (prev waited : ℤ) (written : List (ℤ × Bytes))
        → is_output ev ≡ true
        → (stops fl env i (delay_of fl speed prev ev.time) ≡ true) ⊎ (env.write_fails i ≡ true)
        → let p = play_loop fl env speed (ev ∷ evs) i prev waited written in
          (p.written ≡ written) × (p.ending ≢ finished)
    unfolding play_loop
    loop-cut ev evs i prev waited written out cut = ground arith

    abbrev Says : List (ℤ × Bytes) → List Event → Playback → Type 0
    Says written evs p =
        (rest : List Bytes) × (said p.written ++ rest ≡ said written ++ texts evs)
        × (p.ending ≡ finished → rest ≡ [])

    cut-Says :
        (written : List (ℤ × Bytes)) (evs : List Event) (p : Playback)
        → (p.written ≡ written) × (p.ending ≢ finished)
        → Says written evs p
    cut-Says written evs p (e, stopped) = (texts evs, rw e refl, λ h. absurd (stopped h))

    loop-Says :
        (evs : List Event) (i : ℕ) (prev waited : ℤ) (written : List (ℤ × Bytes))
        → Says written evs (play_loop fl env speed evs i prev waited written)
    loop-Says [] i prev waited written = unfold play_loop in ([], refl, λ _. refl)
    loop-Says (ev ∷ evs) i prev waited written =
        let delay = delay_of fl speed prev ev.time in
        elim (Bool-cases (is_output ev)) [
          | inr other ↦
              rw (loop-other ev evs i prev waited written other, other)
                (loop-Says evs (suc i) ev.time waited written)
          | inl out ↦ elim (Bool-cases (stops fl env i delay)) [
            | inl cut ↦
                cut-Says written (ev ∷ evs) _ (loop-cut ev evs i prev waited written out (inl cut))
            | inr goes ↦ elim (Bool-cases (env.write_fails i)) [
              | inl cut ↦
                  cut-Says written (ev ∷ evs) _
                    (loop-cut ev evs i prev waited written out (inr cut))
              | inr works ↦
                  let now = after_wait fl waited delay in
                  let (rest, e, all_said) =
                    loop-Says evs (suc i) ev.time now (written ++ (now, ev.content) ∷ []) in
                  rw (loop-write ev evs i prev waited written out goes works)
                    (rest, e ∙ rw out (said-snoc written (now, ev.content) (texts evs)), all_said)
            ]
          ]
        ]

  -- In any surroundings a playback writes the texts of the output events in order, and all of them if
  -- it returns because it has finished; an interrupted or failed one has written a first part.
  pub play-texts :
      (p : Player fl) (env : Surroundings)
      → let b = play fl p env in
        (rest : List Bytes) × (said b.written ++ rest ≡ texts p.events)
        × (b.ending ≡ finished → rest ≡ [])
  unfolding play
  play-texts p env = loop-Says env p.speed p.events 0 (pos 0) (pos 0) []

  delay_of-one :
      (p t : ℤ) → pos 0 ≤ℤ p → p ≤ℤ t → t ≤ℤ pos (2 ^ 53) → delay_of fl fl.one p t ≡ t -ℤ p
  unfolding delay_of
  delay_of-one p t p0 pt small =
      rw (delay_of, sub64-eq t p (omega int_laws))
        (fl.divided_one (t -ℤ p) (omega int_laws) (omega int_laws))

  after_wait-sub : (w p t : ℤ) → p ≤ℤ t → after_wait fl w (t -ℤ p) ≡ w +ℤ (t -ℤ p)
  after_wait-sub w p t h = grind int_laws

  module _ (env : Surroundings) (calm : IsCalm env) where
    not-stops : (i : ℕ) (d : ℤ) → stops fl env i d ≡ false
    not-stops i d = ground (arith, calm.goes i)

    loop-finishes :
        (speed : fl.Float) (evs : List Event) (i : ℕ) (p w : ℤ) (written : List (ℤ × Bytes))
        → (play_loop fl env speed evs i p w written).ending ≡ finished
    loop-finishes speed [] i p w written = unfold play_loop in refl
    loop-finishes speed (ev ∷ evs) i p w written = elim (Bool-cases (is_output ev)) [
      | inr other ↦
          rw (loop-other env speed ev evs i p w written other)
            (loop-finishes speed evs (suc i) ev.time w written)
      | inl out ↦
          rw (loop-write env speed ev evs i p w written out (not-stops i _) (calm.works i))
            (loop-finishes speed evs (suc i) ev.time _ _)
    ]

    pub play-finishes : (p : Player fl) → (play fl p env).ending ≡ finished
    unfolding play
    play-finishes p = loop-finishes p.speed p.events 0 (pos 0) (pos 0) []

    -- One output at a speed of one, behind an event at `p`, when `w` has been waited.
    loop_step :
        (ev : Event) (evs : List Event) (i : ℕ) (p w : ℤ) (written : List (ℤ × Bytes))
        → pos 0 ≤ℤ p
        → Steady p (ev ∷ [])
        → let w' = w +ℤ (ev.time -ℤ p) in
          play_loop fl env fl.one (ev ∷ evs) i p w written
          ≡ play_loop fl env fl.one evs (suc i) ev.time w' (written ++ (w', ev.content) ∷ [])
    loop_step ev evs i p w written p0 (out, pt, small, _) =
        let t = ev.time in
        let d : after_wait fl w (delay_of fl fl.one p t) ≡ w +ℤ (t -ℤ p) =
          rw (delay_of-one p t p0 pt small) (after_wait-sub w p t pt) in
        rw (loop-write env fl.one ev evs i p w written out (not-stops i _) (calm.works i), d)

    loop-on_time :
        (evs : List Event) (i : ℕ) (p : ℤ) (written : List (ℤ × Bytes))
        → pos 0 ≤ℤ p
        → Steady p evs
        → play_loop fl env fl.one evs i p p written ≡ record {
          written = written ++ map (λ (ev : Event). (ev.time, ev.content)) evs;
          ending = finished;
        }
    loop-on_time [] i p written p0 s = unfold play_loop in rw append-nil
    loop-on_time (ev ∷ evs) i p written p0 (out, pt, small, s) =
        let back : p +ℤ (ev.time -ℤ p) ≡ ev.time = omega int_laws in
        rw (loop_step ev evs i p p written p0 (out, pt, small, tt), back)
          (loop-on_time evs (suc i) ev.time (written ++ (ev.time, ev.content) ∷ []) (omega arith) s
            ∙ rw append_assoc)

  -- At a speed of one, undisturbed, a recording of outputs alone is written in real time: each text
  -- when as long has been waited as its event's time says.
  pub play-on_time :
      (p : Player fl) (env : Surroundings)
      → IsCalm env
      → p.speed ≡ fl.one
      → Steady (pos 0) p.events
      → play fl p env ≡ record {
        written = map (λ (ev : Event). (ev.time, ev.content)) p.events;
        ending = finished;
      }
  unfolding play
  play-on_time p env calm e s = rw e (loop-on_time env calm p.events 0 (pos 0) [] (omega arith) s)

  -- An event that is no output hides the time before it: behind one, at a speed of one, an output is
  -- written as late after the output before as it is behind that other event.
  pub play_skips_other :
      (a x b : Event) (env : Surroundings)
      → IsCalm env
      → Steady (pos 0) (a ∷ [])
      → is_output x ≡ false
      → a.time ≤ℤ x.time
      → Steady x.time (b ∷ [])
      → play fl (record { events = a ∷ x ∷ b ∷ []; speed = fl.one }) env ≡ record {
        written = (a.time, a.content) ∷ (a.time +ℤ (b.time -ℤ x.time), b.content) ∷ [];
        ending = finished;
      }
  unfolding play
  play_skips_other a x b env calm (oa, a0, sa, _) other ax (ob, xb, sb, _) =
      let first : pos 0 +ℤ (a.time -ℤ pos 0) ≡ a.time = omega int_laws in
      rw
        (
          loop_step env calm a (x ∷ b ∷ []) 0 (pos 0) (pos 0) [] (omega arith) (oa, a0, sa, tt),
          first,
          loop-other env fl.one x (b ∷ []) 1 a.time a.time ((a.time, a.content) ∷ []) other,
          loop_step env calm b [] 2 x.time a.time ((a.time, a.content) ∷ []) (omega arith)
              (ob, xb, sb, tt),
        )
        (unfold play_loop in refl)
