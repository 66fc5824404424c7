-- ===== src/Api/History/Contract.antt =====
-- What the server promises of its sessions, and that it keeps it: behind the contract are the map and
-- its order, the sessions' memory, the countdowns, and everything that a request does to the outside.
use cternal.Prelude.{ℕ, ◌≡◌, Bytes, bytes_eq, if◌then◌else◌}
use cternal.Prelude.Int.{ℤ, pos, negsuc, ◌+ℤ◌, ◌≤ℤ◌}
use cternal.Dict.{Dict}
use cternal.Floats.{Floats}
use cternal.Store
use cternal.Store.{Fallible, ok, err, session_not_found}
use cternal.Ttl.Firing
use cternal.Api.{Server}

-- A client's view of the sessions: which are found, how many are counted, and how many there may be.
pub record View : Type 0 where
  pub found : Bytes → Fallible ℕ
  pub gauge : ℤ
  pub limit : ℤ

abbrev pub view : Server → View
view s = record {
  found = λ id. Store.get s.store id;
  gauge = s.active_sessions;
  limit = s.store.max_sessions;
}

-- What one step may do to it: nothing; add a session, where there is room, under an id that is not in
-- use; or take one away that was there.
pub data Allowed (v v' : View) : Type 0 where
  stays :
      ((j : Bytes) → v'.found j ≡ v.found j)
      → v'.gauge ≡ v.gauge
      → v'.limit ≡ v.limit
      → Allowed v v'
  adds :
      (id : Bytes) (p : ℕ)
      → v.found id ≡ err session_not_found
      → ((j : Bytes) → v'.found j ≡ (if bytes_eq id j then ok p else v.found j))
      → v'.gauge ≡ v.gauge +ℤ pos 1
      → (pos 1 ≤ℤ v.limit → v'.gauge ≤ℤ v.limit)
      → v'.limit ≡ v.limit
      → Allowed v v'
  drops :
      (id : Bytes) (p : ℕ)
      → v.found id ≡ ok p
      → ((j : Bytes) → v'.found j ≡ (if bytes_eq id j then err session_not_found else v.found j))
      → v'.gauge ≡ v.gauge +ℤ negsuc 0
      → v'.limit ≡ v.limit
      → Allowed v v'

-- A view that such steps lead to from one with no session.
pub data Behaves (limit : ℤ) : View → Type 0 where
  empty :
      (v : View)
      → ((j : Bytes) → v.found j ≡ err session_not_found)
      → v.gauge ≡ pos 0
      → v.limit ≡ limit
      → Behaves limit v
  goes_on : {v v' : View} → Behaves limit v → Allowed v v' → Behaves limit v'
