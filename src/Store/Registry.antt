-- ===== src/Store/Registry.antt =====
-- What the store holds, after each of its operations.
use mathlib.Core.Logic.Or
use mathlib.Core.List.{Mem, Perm, mem-cons, mem-cons_self, mem-cons_of_mem, not-mem-nil}
use mathlib.Core.List.Perm
use mathlib.Core.Path.{subst}
use mathlib.Core.HLevel.{⊥_prop}
use cternal.Prelude.{
  ℕ, ◌≡◌, refl, ap, arith, true, Bool-cases, inl, inr, ◌⊎◌, List, [], ◌∷◌, Bytes, bytes_eq,
  if◌then◌else◌, length,
}
use cternal.Prelude.Int.{ℤ, pos, ◌≤ℤ◌}
use cternal.Dict.{
  Dict, insert, delete, Distinct, lookup-insert, lookup-delete, insert-Distinct, delete-Distinct,
  length-insert, length-delete,
}
use cternal.Session.{Mode}
use cternal.Store.{
  Store, Heap, Fallible, ok, err, session_not_found, max_sessions_reached, is_full, new_store,
  create, get, remove, len, is_for, get_by_container,
}

-- Each entry's key is the id of its session.
abbrev pub Keyed : Heap → Dict ℕ → Type 0
Keyed heap [] = Unit {0}
Keyed heap ((id, sess) ∷ m) = ((heap sess).id ≡ id) × Keyed heap m

pub record IsSound (heap : Heap) (s : Store) : Type 0 where
  pub distinct : Distinct s.sessions
  pub keyed : Keyed heap s.sessions
  pub capped : pos 1 ≤ℤ s.max_sessions → pos (length s.sessions) ≤ℤ s.max_sessions

insert-Keyed :
    (heap : Heap) (sess : ℕ) (m : Dict ℕ) → Keyed heap m → Keyed heap (insert (heap sess).id sess m)
unfolding insert
insert-Keyed heap sess [] k = (refl, tt)
insert-Keyed heap sess ((id, other) ∷ m) k = ground (arith, insert-Keyed heap sess m k.1)

delete-Keyed : (heap : Heap) (id : Bytes) (m : Dict ℕ) → Keyed heap m → Keyed heap (delete id m)
unfolding delete
delete-Keyed heap id [] k = tt
delete-Keyed heap id ((j, other) ∷ m) k = ground (arith, delete-Keyed heap id m k.1)

module _ (heap : Heap) (s : Store) (sess : ℕ) where
  -- `Create` fails exactly where a positive limit is reached; then `Get` finds the new session under
  -- its id, and every other id as before.
  pub create_lem :
      ((create heap s sess ≡ err max_sessions_reached)
        × (pos 1 ≤ℤ s.max_sessions)
        × (s.max_sessions ≤ℤ pos (len s)))
      ⊎ ((s' : Store) × (create heap s sess ≡ ok s')
          × ((id : Bytes) → get s' id ≡ (if bytes_eq (heap sess).id id then ok sess else get s id)))
  unfolding create get len
  create_lem = elim (Bool-cases (is_full s)) [
    | inl full ↦ inl (rw full refl, ground arith, ground arith)
    | inr room ↦ inr (
      record s { sessions = insert (heap sess).id sess s.sessions },
      rw room refl,
      λ id. ground (arith, lookup-insert (heap sess).id id sess s.sessions),
    )
  ]

  pub create-eq :
      (s' : Store)
      → create heap s sess ≡ ok s'
      → record s { sessions = insert (heap sess).id sess s.sessions } ≡ s'
  unfolding create
  create-eq s' e = elim (Bool-cases (is_full s)) [
    | inl full ↦ ground arith
    | inr room ↦ ground arith
  ]

  pub create-IsSound : (s' : Store) → IsSound heap s → create heap s sess ≡ ok s' → IsSound heap s'
  unfolding create
  create-IsSound s' v e = elim (Bool-cases (is_full s)) [
    | inl full ↦ ground arith
    | inr room ↦
        let e' : record s { sessions = insert (heap sess).id sess s.sessions } ≡ s' =
          ground arith in
        subst (IsSound heap) e' (record {
          distinct = insert-Distinct (heap sess).id sess s.sessions v.distinct;
          keyed = insert-Keyed heap sess s.sessions v.keyed;
          capped = λ h. ground (arith, length-insert (heap sess).id sess s.sessions);
        })
  ]

-- A removed session is not found, and every other is found as before.
pub get-remove :
    (s : Store) (id j : Bytes)
    → get (remove s id) j ≡ (if bytes_eq id j then err session_not_found else get s j)
unfolding get remove
get-remove s id j = ground (arith, lookup-delete id j s.sessions)

pub remove-IsSound :
    (heap : Heap) (s : Store) (id : Bytes) → IsSound heap s → IsSound heap (remove s id)
unfolding remove
remove-IsSound heap s id v = record {
  distinct = delete-Distinct id s.sessions v.distinct;
  keyed = delete-Keyed heap id s.sessions v.keyed;
  capped = λ h. omega (arith, v.capped h, length-delete id s.sessions v.distinct);
}

module _ (heap : Heap) (container_id : Bytes) (mode : Mode) where
  abbrev Matches : ℕ → Type 0
  Matches sess = is_for (heap sess) container_id mode ≡ true

  Found : Dict ℕ → Fallible ℕ → Type 0
  Found m r =
      ((id : Bytes) × (sess : ℕ) × (r ≡ ok sess) × Mem (id, sess) m × Matches sess)
      ⊎ ((r ≡ err session_not_found)
          × ((id : Bytes) (sess : ℕ) → Mem (id, sess) m → ¬ Matches sess))

  get_by_container-Found :
      (visited : Dict ℕ) → Found visited (get_by_container heap visited container_id mode)
  unfolding get_by_container Found
  get_by_container-Found [] = inr (refl, λ id sess m _. not-mem-nil m)
  get_by_container-Found ((j, other) ∷ visited) =
      elim (Bool-cases (is_for (heap other) container_id mode)) [
        | inl hit ↦ inl (j, other, rw hit refl, mem-cons_self, hit)
        | inr miss ↦ rw miss (elim (get_by_container-Found visited) [
          | inl (id, sess, e, m, h) ↦ inl (id, sess, e, mem-cons_of_mem _ m, h)
          | inr (e, nowhere) ↦ inr (
            e,
            λ id sess m h.
                Or.elim ⊥_prop (mem-cons.0 m)
                  (λ here. cc (ap (λ (x : Bytes × ℕ). is_for (heap x.1) container_id mode) here))
                  (λ m'. nowhere id sess m' h),
          )
        ])
      ]

  -- In whatever order the map is visited, the result is a session of the store for that container and
  -- mode, or there is none in the store.
  pub get_by_container_lem :
      (s : Store) (visited : Dict ℕ)
      → Perm visited s.sessions
      → let r = get_by_container heap visited container_id mode in
        ((id : Bytes) × (sess : ℕ) × (r ≡ ok sess)
          × Mem (id, sess) s.sessions
          × (is_for (heap sess) container_id mode ≡ true))
        ⊎ ((r ≡ err session_not_found)
            × ((id : Bytes) (sess : ℕ)
                → Mem (id, sess) s.sessions
                → ¬ (is_for (heap sess) container_id mode ≡ true)))
  unfolding Found
  get_by_container_lem s visited p = elim (get_by_container-Found visited) [
    | inl (id, sess, e, m, h) ↦ inl (id, sess, e, (Perm.mem_iff p).0 m, h)
    | inr (e, nowhere) ↦ inr (e, λ id sess m. nowhere id sess ((Perm.mem_iff p).1 m))
  ]

-- What may happen to a store.
pub data Op : Type 0 where
  creates : ℕ → Op
  removes : Bytes → Op

-- A creation that fails leaves the store as it was.
abbrev pub after : Store → Fallible Store → Store
after s (ok s') = s'
after s (err e) = s

pub run : Heap → Store → List Op → Store
run heap s [] = s
run heap s (creates sess ∷ ops) = run heap (after s (create heap s sess)) ops
run heap s (removes id ∷ ops) = run heap (remove s id) ops

after-IsSound :
    (heap : Heap) (s : Store) (sess : ℕ)
    → IsSound heap s
    → IsSound heap (after s (create heap s sess))
after-IsSound heap s sess v = elim (create_lem heap s sess) [
  | inl (e, _, _) ↦ rw e v
  | inr (s', e, _) ↦ rw e (create-IsSound heap s sess s' v e)
]

run-IsSound :
    (heap : Heap) (s : Store) (ops : List Op) → IsSound heap s → IsSound heap (run heap s ops)
unfolding run
run-IsSound heap s [] v = v
run-IsSound heap s (creates sess ∷ ops) v =
    run-IsSound heap (after s (create heap s sess)) ops (after-IsSound heap s sess v)
run-IsSound heap s (removes id ∷ ops) v =
    run-IsSound heap (remove s id) ops (remove-IsSound heap s id v)

-- Through any history of a new store, no id stands twice, each session stands under its own id, and a
-- positive limit is never exceeded.
pub run-new_store-IsSound :
    (heap : Heap) (max_sessions : ℤ) (ops : List Op)
    → IsSound heap (run heap (new_store max_sessions) ops)
unfolding new_store
run-new_store-IsSound heap max_sessions ops =
    run-IsSound heap _ ops (record { distinct = tt; keyed = tt; capped = λ h. omega arith })
