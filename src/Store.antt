-- ===== src/Store.antt =====
-- internal/session/store.go: the registry of sessions. Each method holds the store's lock, so it is one
-- step. A *Session is a number, which the heap of sessions takes to its fields; those that the store
-- reads are never written after the session is made.
pub mod Registry
mod Tests
use cternal.Prelude.{
  ℕ, Bool, true, false, ◌&&◌, Option, none, some, List, [], ◌∷◌, Bytes, bytes_eq, if◌then◌else◌,
  map, length,
}
use cternal.Prelude.Int.{ℤ, pos, ltb_ℤ}
use cternal.Dict.{Dict, lookup, insert, delete}
use cternal.Session.{Session, Mode}

pub data StoreError : Type 0 where
  session_not_found : StoreError
  max_sessions_reached : StoreError

pub data Fallible {ℓ} (A : Type ℓ) : Type ℓ where
  ok : A → Fallible A
  err : StoreError → Fallible A

pub record Store : Type 0 where
  pub sessions : Dict ℕ
  pub max_sessions : ℤ

abbrev pub Heap : Type 0
Heap = ℕ → Session

unfoldable pub new_store : ℤ → Store
new_store max_sessions = record { sessions = []; max_sessions = max_sessions }

abbrev pub is_full : Store → Bool
is_full s =
    let n = pos (length s.sessions) in
    ltb_ℤ (pos 0) s.max_sessions && (if ltb_ℤ n s.max_sessions then false else true)

unfoldable pub create : Heap → Store → ℕ → Fallible Store
create heap s sess =
    if is_full s
    then err max_sessions_reached
    else ok (record s { sessions = insert (heap sess).id sess s.sessions })

unfoldable pub get : Store → Bytes → Fallible ℕ
get s id = elim (lookup id s.sessions) [ none ↦ err session_not_found | some sess ↦ ok sess ]

unfoldable pub remove : Store → Bytes → Store
remove s id = record s { sessions = delete id s.sessions }

-- The loops over the map take the order in which it is visited, which Go leaves open.
unfoldable pub list : Dict ℕ → List ℕ
list visited = map (λ (e : Bytes × ℕ). e.1) visited

unfoldable pub len : Store → ℕ
len s = length s.sessions

abbrev pub is_for : Session → Bytes → Mode → Bool
is_for sess container_id mode = bytes_eq sess.container_id container_id && bytes_eq sess.mode mode

unfoldable pub get_by_container : Heap → Dict ℕ → Bytes → Mode → Fallible ℕ
get_by_container heap [] container_id mode = err session_not_found
get_by_container heap ((id, sess) ∷ visited) container_id mode =
    if is_for (heap sess) container_id mode
    then ok sess
    else get_by_container heap visited container_id mode
