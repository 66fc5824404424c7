-- ===== src/Session/Channels.antt =====
-- Who gets what is broadcast.
use mathlib.Core.Path.{subst}
use mathlib.Core.Option.{some-injective}
use cternal.Prelude.{
  ℕ, ◌≤◌, ◌<◌, ◌≡◌, refl, sym, ◌∙◌, arith, Bool, true, false, Bool-cases, inl, inr, ◌||◌, Option,
  none, some, Option-cases, List, [], ◌∷◌, ◌++◌, Bytes, ◌==◌, ltb, if◌then◌else◌, length,
  length-append,
}
use cternal.Prelude.Int.{ℤ}
use cternal.Session.{
  Session, Subscription, Mode, Status, ch_capacity, update, new_session, set_status, subscribe,
  cut_out, unsubscribe, offer, send_all, broadcast, pump_round,
}

abbrev pub member : ℕ → List ℕ → Bool
member p [] = false
member p (q ∷ qs) = (q == p) || member p qs

abbrev Unique : List ℕ → Type 0
Unique [] = Unit {0}
Unique (q ∷ qs) = (member q qs ≡ false) × Unique qs

-- The subscribers are distinct, made and open, and no queue is longer than its channel.
pub record IsSound (s : Session) : Type 0 where
  pub distinct : Unique s.subscribers
  pub known : (p : ℕ) → member p s.subscribers ≡ true → (p < s.made) × ((s.channels p).done ≡ false)
  pub room : (p : ℕ) → length (s.channels p).ch ≤ ch_capacity

send_all_lem :
    (content : Bytes) (subs : List ℕ) (channels : ℕ → Subscription) (p : ℕ)
    → Unique subs
    → send_all content subs channels p
      ≡ (if member p subs then offer content (channels p) else channels p)
unfolding send_all
send_all_lem content [] channels p u = refl
send_all_lem content (q ∷ qs) channels p u =
    ground (arith, send_all_lem content qs (update channels q (offer content (channels q))) p u.1)

offer-room :
    (content : Bytes) (c : Subscription)
    → length c.ch ≤ ch_capacity
    → length (offer content c).ch ≤ ch_capacity
unfolding offer
offer-room content c h = ground (arith, length-append c.ch (content ∷ []))

offer-done : (content : Bytes) (c : Subscription) → (offer content c).done ≡ c.done
unfolding offer
offer-done content c = ground arith

member-append : (p : ℕ) (xs : List ℕ) (q : ℕ) → member p (xs ++ q ∷ []) ≡ (member p xs || (q == p))
member-append p [] q = ground arith
member-append p (x ∷ xs) q = ground (arith, member-append p xs q)

append-Unique : (xs : List ℕ) (q : ℕ) → Unique xs → member q xs ≡ false → Unique (xs ++ q ∷ [])
append-Unique [] q u m = (refl, tt)
append-Unique (x ∷ xs) q u m = ground (arith, append-Unique xs q u.1, member-append x xs q)

member-cut_out :
    (q p : ℕ) (xs : List ℕ)
    → Unique xs
    → member p (cut_out q xs) ≡ (if q == p then false else member p xs)
unfolding cut_out
member-cut_out q p [] u = ground arith
member-cut_out q p (x ∷ xs) u = ground (arith, member-cut_out q p xs u.1)

cut_out-Unique : (q : ℕ) (xs : List ℕ) → Unique xs → Unique (cut_out q xs)
unfolding cut_out
cut_out-Unique q [] u = tt
cut_out-Unique q (x ∷ xs) u = ground (arith, cut_out-Unique q xs u.1, member-cut_out q x xs u.1)

module _ (s : Session) (content : Bytes) (v : IsSound s) where
  -- A broadcast appends the text to the queue of each subscriber that has room, once, and changes no
  -- other queue.
  pub broadcast_lem :
      (p : ℕ)
      → ((broadcast s content).channels p).ch ≡ (
          if member p s.subscribers
          then (if ltb (length (s.channels p).ch) ch_capacity
              then (s.channels p).ch ++ content ∷ []
              else (s.channels p).ch)
          else (s.channels p).ch)
  unfolding broadcast offer
  broadcast_lem p = ground (arith, send_all_lem content s.subscribers s.channels p v.distinct)

  pub broadcast-IsSound : IsSound (broadcast s content)
  unfolding broadcast
  broadcast-IsSound = record {
    distinct = v.distinct;
    known = λ p m. ground (
      arith,
      send_all_lem content s.subscribers s.channels p v.distinct,
      offer-done content (s.channels p),
      v.known p m,
    );
    room = λ p. ground (
      arith,
      send_all_lem content s.subscribers s.channels p v.distinct,
      offer-room content (s.channels p) (v.room p),
      v.room p,
    );
  }

subscribe-IsSound : (s : Session) → IsSound s → IsSound (subscribe s).1
unfolding subscribe
subscribe-IsSound s v = record {
  distinct = append-Unique s.subscribers s.made v.distinct (ground (arith, v.known s.made));
  known = λ p m. ground (arith, member-append p s.subscribers s.made, v.known p);
  room = λ p. ground (arith, v.room p);
}

unsubscribe_closed : (s : Session) (p : ℕ) → (s.channels p).done ≡ true → unsubscribe s p ≡ none
unfolding unsubscribe
unsubscribe_closed s p h = rw h

-- A subscription that is not yet closed can be cancelled: then it is closed, and gone from the
-- subscribers, which are otherwise the same; a second cancellation panics.
pub unsubscribe_lem :
    (s : Session) (p : ℕ)
    → IsSound s
    → (s.channels p).done ≡ false
    → (s' : Session) × (unsubscribe s p ≡ some s')
      × IsSound s'
      × ((q : ℕ) → member q s'.subscribers ≡ (if p == q then false else member q s.subscribers))
      × (unsubscribe s' p ≡ none)
unfolding unsubscribe
unsubscribe_lem s p v o =
    let c = s.channels p in
    (
      record s {
        subscribers = cut_out p s.subscribers;
        channels = update s.channels p (record c { done = true });
      },
      rw o refl,
      record {
        distinct = cut_out-Unique p s.subscribers v.distinct;
        known = λ q m. ground (arith, member-cut_out p q s.subscribers v.distinct, v.known q);
        room = λ q. ground (arith, v.room q, v.room p);
      },
      λ q. member-cut_out p q s.subscribers v.distinct,
      ground arith,
    )

-- What may happen to a session after it has been made.
pub data Op : Type 0 where
  subscribes : Op
  unsubscribes : ℕ → Op
  broadcasts : Bytes → Op
  reads : Bytes → ℤ → Op
  sets : Status → Op

unfoldable pub step : Session → Op → Option Session
step s subscribes = some (subscribe s).1
step s (unsubscribes p) = unsubscribe s p
step s (broadcasts content) = some (broadcast s content)
step s (reads content now) = some (pump_round s content now)
step s (sets st) = some (set_status s st)

unfoldable pub run : Session → List Op → Option Session
run s [] = some s
run s (op ∷ ops) = elim (step s op) [ none ↦ none | some s' ↦ run s' ops ]

pub pump_round-IsSound :
    (s : Session) (content : Bytes) (now : ℤ) → IsSound s → IsSound (pump_round s content now)
unfolding pump_round
pump_round-IsSound s content now v =
    broadcast-IsSound _ _ (record { distinct = v.distinct; known = v.known; room = v.room })

step-IsSound : (s : Session) (op : Op) (s' : Session) → IsSound s → step s op ≡ some s' → IsSound s'
unfolding step
step-IsSound s subscribes s' v e = subst IsSound (some-injective _ _ e) (subscribe-IsSound s v)
step-IsSound s (unsubscribes p) s' v e = elim (Bool-cases (s.channels p).done) [
  | inl closed ↦ cc (unsubscribe_closed s p closed)
  | inr o ↦
      let (t, e', w, _, _) = unsubscribe_lem s p v o in
      subst IsSound (some-injective _ _ (sym e' ∙ e)) w
]
step-IsSound s (broadcasts content) s' v e =
    subst IsSound (some-injective _ _ e) (broadcast-IsSound s content v)
step-IsSound s (reads content now) s' v e =
    subst IsSound (some-injective _ _ e) (pump_round-IsSound s content now v)
step-IsSound s (sets st) s' v e =
    subst IsSound (some-injective _ _ e)
      (unfold set_status in record { distinct = v.distinct; known = v.known; room = v.room })

run-cons :
    (s : Session) (op : Op) (ops : List Op) (s' : Session)
    → run s (op ∷ ops) ≡ some s'
    → (t : Session) × (step s op ≡ some t) × (run t ops ≡ some s')
unfolding run
run-cons s op ops s' e = elim (Option-cases (step s op)) [
  | inl stuck ↦ ground arith
  | inr (t, et) ↦ (t, et, ground arith)
]

run-IsSound : (ops : List Op) (s s' : Session) → IsSound s → run s ops ≡ some s' → IsSound s'
run-IsSound [] s s' v e = unfold run in subst IsSound (some-injective _ _ e) v
run-IsSound (op ∷ ops) s s' v e =
    let (t, et, rest) = run-cons s op ops s' e in
    run-IsSound ops t s' (step-IsSound s op t v et) rest

module _ (id container_id : Bytes) (mode : Mode) (stream : Option ℕ) (now : ℤ) where
  new_session-IsSound : IsSound (new_session id container_id mode stream now [])
  unfolding new_session
  new_session-IsSound = record { distinct = tt; known = λ p m. cc; room = λ p. omega arith }

  -- Whatever is done with a new session, short of the panic of a second cancellation, its subscribers
  -- stay distinct and open, and no queue grows past its channel.
  pub run-new_session-IsSound :
      (ops : List Op) (s : Session)
      → run (new_session id container_id mode stream now []) ops ≡ some s
      → IsSound s
  run-new_session-IsSound ops s e = run-IsSound ops _ s new_session-IsSound e
