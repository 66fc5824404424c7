-- ===== src/Api/Invariant.antt =====
-- What holds of the server between requests.
use cternal.Prelude.{
  ℕ, none, suc, ◌<◌, ◌≡◌, ◌∙◌, arith, Bool-cases, Option-cases, inl, inr, ◌⊎◌, some, [], ◌∷◌, Bytes,
  bytes_eq_iff, ◌==◌, ==_iff, length,
}
use cternal.Prelude.Int.{pos}
use cternal.Dict.{Dict, lookup, insert, delete}
use cternal.Session.{Session}
use cternal.Store.{Store, get, ok, err, session_not_found}
use cternal.Store.Registry
use cternal.Store.Registry.{Keyed}
use cternal.Ttl.Countdown
use cternal.Api.{Server, set_session}

-- The entries point to sessions that have been made.
abbrev pub Made : ℕ → Dict ℕ → Type 0
Made n [] = Unit {0}
Made n ((id, p) ∷ m) = (p < n) × Made n m

-- The registry and the countdowns are sound, and the metric of active sessions counts the registry.
pub record IsSound (s : Server) : Type 0 where
  pub registry : Registry.IsSound s.heap s.store
  pub known : Made s.made s.store.sessions
  pub countdown : Countdown.IsSound s.ttl_mgr
  pub counted : s.active_sessions ≡ pos (length s.store.sessions)

pub insert-Made :
    (n : ℕ) (id : Bytes) (p : ℕ) (m : Dict ℕ) → p < n → Made n m → Made n (insert id p m)
unfolding insert
insert-Made n id p [] h k = (h, tt)
insert-Made n id p ((j, q) ∷ m) h k = ground (arith, insert-Made n id p m h k.1)

pub delete-Made : (n : ℕ) (id : Bytes) (m : Dict ℕ) → Made n m → Made n (delete id m)
unfolding delete
delete-Made n id [] k = tt
delete-Made n id ((j, q) ∷ m) k = ground (arith, delete-Made n id m k.1)

pub suc-Made : (n : ℕ) (m : Dict ℕ) → Made n m → Made (suc n) m
suc-Made n [] k = tt
suc-Made n ((j, q) ∷ m) (h, k) = (omega arith, suc-Made n m k)

pub lookup-Made :
    (n : ℕ) (id : Bytes) (p : ℕ) (m : Dict ℕ) → Made n m → lookup id m ≡ some p → p < n
unfolding lookup
lookup-Made n id p [] k e = cc
lookup-Made n id p ((j, q) ∷ m) k e = ground (arith, lookup-Made n id p m k.1)

-- A new session at the end of the heap changes no entry's session.
pub fresh-Keyed :
    (heap : ℕ → Session) (n : ℕ) (sess : Session) (m : Dict ℕ)
    → Made n m
    → Keyed heap m
    → Keyed (set_session heap n sess) m
fresh-Keyed heap n sess [] k h = tt
fresh-Keyed heap n sess ((j, q) ∷ m) k h = ground (arith, fresh-Keyed heap n sess m k.1 h.1)

-- Nor does an update that keeps the session's id.
pub update-Keyed :
    (heap : ℕ → Session) (p : ℕ) (sess : Session) (m : Dict ℕ)
    → sess.id ≡ (heap p).id
    → Keyed heap m
    → Keyed (set_session heap p sess) m
update-Keyed heap p sess [] e h = tt
update-Keyed heap p sess ((j, q) ∷ m) e h = (
  elim (Bool-cases (p == q)) [
    | inl same ↦ rw same (e ∙ rw ((==_iff p q).0 same) h.0)
    | inr other ↦ rw other h.0
  ],
  update-Keyed heap p sess m e h.1,
)

pub lookup-Keyed :
    (heap : ℕ → Session) (id : Bytes) (p : ℕ) (m : Dict ℕ)
    → Keyed heap m
    → lookup id m ≡ some p
    → (heap p).id ≡ id
unfolding lookup
lookup-Keyed heap id p [] k e = cc
lookup-Keyed heap id p ((j, q) ∷ m) k e =
    ground (arith, bytes_eq_iff j id, lookup-Keyed heap id p m k.1)

pub get-lookup : (s : Store) (id : Bytes) (p : ℕ) → get s id ≡ ok p → lookup id s.sessions ≡ some p
unfolding get
get-lookup s id p e = ground arith

pub lookup-get : (s : Store) (id : Bytes) (p : ℕ) → lookup id s.sessions ≡ some p → get s id ≡ ok p
unfolding get
lookup-get s id p e = ground arith

pub get-free :
    (s : Store) (id : Bytes) → lookup id s.sessions ≡ none → get s id ≡ err session_not_found
unfolding get
get-free s id e = ground arith

pub get-cases :
    (s : Store) (id : Bytes) → (get s id ≡ err session_not_found) ⊎ ((p : ℕ) × (get s id ≡ ok p))
unfolding get
get-cases s id = elim (Option-cases (lookup id s.sessions)) [
  | inl e ↦ inl (ground arith)
  | inr (p, e) ↦ inr (p, ground arith)
]

-- An update of a session that keeps its id keeps the server sound.
pub update-IsSound :
    (s : Server) (p : ℕ) (sess : Session)
    → sess.id ≡ (s.heap p).id
    → IsSound s
    → IsSound (record s { heap = set_session s.heap p sess })
update-IsSound s p sess e v = record {
  registry = record {
    distinct = v.registry.distinct;
    keyed = update-Keyed s.heap p sess s.store.sessions e v.registry.keyed;
    capped = v.registry.capped;
  };
  known = v.known;
  countdown = v.countdown;
  counted = v.counted;
}
