-- ===== src/Api/Socket/Attach/Moves.antt =====
-- What the steps of an attach connection's handler and forwarder keep.
use mathlib.Core.Path.{subst}
use mathlib.Core.Option.{some-injective}
use cternal.Prelude.{
  ◌≤◌, ◌≡◌, refl, sym, ap, ◌∙◌, arith, Bool-cases, inl, inr, ◌⊎◌, some, List, [], ◌∷◌, ◌++◌, Bytes,
  ltb, if◌then◌else◌, length, append_assoc, length-append,
}
use cternal.Session.{ch_capacity, offer}
use cternal.Api.Socket.Attach.{
  Reader, reading, waiting, returned, Forwarder, idle, holding, closed, Writer, writing, done,
  Attach, write_capacity, new_attach, Move, broadcasts, reads, read_fails, receives, sees_done,
  sends, gives_up, returns, move_reader, move_forwarder, receive,
}

unfoldable pub held : Forwarder → List Bytes
held idle = []
held (holding content) = content ∷ []
held closed = []

-- What is on its way to the client.
unfoldable pub queue : Attach → List Bytes
queue a = a.write_ch ++ (held a.forwarder ++ a.sub.ch)

-- The texts that the subscription has taken: a broadcast that finds it full is dropped.
unfoldable pub heard : List Bytes → Attach → Move → List Bytes
heard taken a (broadcasts content) =
    if ltb (length a.sub.ch) ch_capacity then taken ++ content ∷ [] else taken
heard taken a m = taken

pub record IsSound (a : Attach) (taken : List Bytes) : Type 0 where
  pub whole : a.writer ≡ writing → a.sent ++ queue a ≡ taken
  pub prefix : (rest : List Bytes) × (a.sent ++ rest ≡ taken)
  pub ch_bound : length a.sub.ch ≤ ch_capacity
  pub write_bound : length a.write_ch ≤ write_capacity

pub new_attach-IsSound : IsSound new_attach []
unfolding new_attach queue held
new_attach-IsSound = record {
  whole = λ _. refl;
  prefix = ([], refl);
  ch_bound = omega arith;
  write_bound = omega arith;
}

pub same :
    {a a' : Attach} {taken : List Bytes} → some a ≡ some a' → IsSound a taken → IsSound a' taken
same {a} {a'} {taken} e v = subst (λ b. IsSound b taken) (some-injective _ _ e) v

Writer-cases : (w : Writer) → (w ≡ writing) ⊎ (w ≡ done)
Writer-cases writing = inl refl
Writer-cases done = inr refl

receive-IsSound :
    (a a' : Attach) (taken ch : List Bytes)
    → a.forwarder ≡ idle
    → a.sub.ch ≡ ch
    → IsSound a taken
    → receive a ch ≡ some a'
    → IsSound a' taken
unfolding receive queue held
receive-IsSound a a' taken [] at c v e = cc
receive-IsSound a a' taken (content ∷ rest) at c v e = same e (record {
  whole = λ w. ground (arith, v.whole w);
  prefix = v.prefix;
  ch_bound = ground (arith, v.ch_bound);
  write_bound = v.write_bound;
})

pub broadcasts-IsSound :
    (a : Attach) (taken : List Bytes) (content : Bytes)
    → IsSound a taken
    → IsSound (record a { sub = offer content a.sub }) (heard taken a (broadcasts content))
unfolding offer heard queue
broadcasts-IsSound a taken content v = elim (Bool-cases (ltb (length a.sub.ch) ch_capacity)) [
  | inl room ↦
      rw (heard, room)
        (record {
          whole = λ w.
              ap (λ xs. a.sent ++ xs)
                (ap (λ xs. a.write_ch ++ xs)
                    (sym (append_assoc (held a.forwarder) a.sub.ch (content ∷ [])))
                  ∙ sym (append_assoc a.write_ch (held a.forwarder ++ a.sub.ch) (content ∷ [])))
              ∙ sym (append_assoc a.sent (queue a) (content ∷ []))
              ∙ ap (λ xs. xs ++ content ∷ []) (v.whole w);
          prefix = (
            v.prefix.0 ++ content ∷ [],
            sym (append_assoc a.sent v.prefix.0 (content ∷ []))
                ∙ ap (λ xs. xs ++ content ∷ []) v.prefix.1,
          );
          ch_bound = ground (arith, length-append a.sub.ch (content ∷ []));
          write_bound = v.write_bound;
        })
  | inr full ↦ rw (heard, full) v
]

pub reads-IsSound :
    (a a' : Attach) (taken : List Bytes) (r : Reader)
    → IsSound a taken
    → move_reader a reads r ≡ some a'
    → IsSound a' taken
unfolding move_reader
reads-IsSound a a' taken reading v e = same e v
reads-IsSound a a' taken waiting v e = cc
reads-IsSound a a' taken returned v e = cc

pub read_fails-IsSound :
    (a a' : Attach) (taken : List Bytes) (r : Reader)
    → IsSound a taken
    → move_reader a read_fails r ≡ some a'
    → IsSound a' taken
unfolding move_reader queue
read_fails-IsSound a a' taken reading v e = same e (record {
  whole = v.whole;
  prefix = v.prefix;
  ch_bound = v.ch_bound;
  write_bound = v.write_bound;
})
read_fails-IsSound a a' taken waiting v e = cc
read_fails-IsSound a a' taken returned v e = cc

pub returns-IsSound :
    (a a' : Attach) (taken : List Bytes) (r : Reader)
    → IsSound a taken
    → move_reader a returns r ≡ some a'
    → IsSound a' taken
unfolding move_reader queue
returns-IsSound a a' taken reading v e = cc
returns-IsSound a a' taken waiting v e = elim (Writer-cases a.writer) [
  | inl w ↦ ground arith
  | inr w ↦ same (rw (move_reader, w) at e) (record {
    whole = v.whole;
    prefix = v.prefix;
    ch_bound = v.ch_bound;
    write_bound = v.write_bound;
  })
]
returns-IsSound a a' taken returned v e = cc

pub receives-IsSound :
    (a a' : Attach) (taken : List Bytes) (f : Forwarder)
    → a.forwarder ≡ f
    → IsSound a taken
    → move_forwarder a receives f ≡ some a'
    → IsSound a' taken
unfolding move_forwarder
receives-IsSound a a' taken idle at v e = receive-IsSound a a' taken a.sub.ch at refl v e
receives-IsSound a a' taken (holding content) at v e = cc
receives-IsSound a a' taken closed at v e = cc

pub sees_done-IsSound :
    (a a' : Attach) (taken : List Bytes) (f : Forwarder)
    → a.forwarder ≡ f
    → IsSound a taken
    → move_forwarder a sees_done f ≡ some a'
    → IsSound a' taken
unfolding move_forwarder queue held
sees_done-IsSound a a' taken idle at v e = elim (Bool-cases a.sub.done) [
  | inl d ↦ same (rw (move_forwarder, d) at e) (record {
    whole = λ w. ground (arith, v.whole w);
    prefix = v.prefix;
    ch_bound = v.ch_bound;
    write_bound = v.write_bound;
  })
  | inr d ↦ ground arith
]
sees_done-IsSound a a' taken (holding content) at v e = cc
sees_done-IsSound a a' taken closed at v e = cc

pub sends-IsSound :
    (a a' : Attach) (taken : List Bytes) (f : Forwarder)
    → a.forwarder ≡ f
    → IsSound a taken
    → move_forwarder a sends f ≡ some a'
    → IsSound a' taken
unfolding move_forwarder queue held
sends-IsSound a a' taken idle at v e = cc
sends-IsSound a a' taken (holding content) at v e =
    elim (Bool-cases (ltb (length a.write_ch) write_capacity)) [
      | inl room ↦ same (rw (move_forwarder, room) at e) (record {
        whole = λ w. ground (arith, v.whole w, append_assoc a.write_ch (content ∷ []) a.sub.ch);
        prefix = v.prefix;
        ch_bound = v.ch_bound;
        write_bound = ground (arith, length-append a.write_ch (content ∷ []));
      })
      | inr full ↦ ground arith
    ]
sends-IsSound a a' taken closed at v e = cc

pub gives_up-IsSound :
    (a a' : Attach) (taken : List Bytes) (f : Forwarder)
    → IsSound a taken
    → move_forwarder a gives_up f ≡ some a'
    → IsSound a' taken
unfolding move_forwarder
gives_up-IsSound a a' taken idle v e = cc
gives_up-IsSound a a' taken (holding content) v e = elim (Writer-cases a.writer) [
  | inl w ↦ ground arith
  | inr w ↦ same (rw (move_forwarder, w) at e) (record {
    whole = λ w'. ground arith;
    prefix = v.prefix;
    ch_bound = v.ch_bound;
    write_bound = v.write_bound;
  })
]
gives_up-IsSound a a' taken closed v e = cc
