-- ===== src/Api/Socket/Exec/Moves.antt =====
-- What the steps of an exec connection's handler and source keep.
use mathlib.Core.Path.{subst}
use mathlib.Core.List.{map-append}
use mathlib.Core.Option.{some-injective}
use cternal.Prelude.{
  ◌≤◌, ◌≡◌, refl, sym, ap, ◌∙◌, arith, Bool-cases, inl, inr, ◌⊎◌, some, List, [], ◌∷◌, ◌++◌, Bytes,
  ltb, length, map, append-nil, append_assoc, length-append,
}
use cternal.Api.Socket.{Message, output, exit}
use cternal.Api.Socket.Attach.{
  Reader, reading, waiting, returned, Writer, writing, done, write_capacity,
}
use cternal.Api.Socket.Exec.{
  Source, taking, telling, exiting, over, Exec, new_exec, hears, hears_no_more, leaves, takes,
  stream_ends, tells, gives_up, exec_reader, tell, stop_telling, exec_source,
}

abbrev pub in_hand : Source → List Message
in_hand taking = []
in_hand (telling content) = output content ∷ []
in_hand exiting = exit ∷ []
in_hand over = []

abbrev last_words : Source → List Message
last_words taking = []
last_words (telling content) = []
last_words exiting = exit ∷ []
last_words over = exit ∷ []

-- What the source has had to say: the texts that it has taken, and the exit message behind the last.
unfoldable pub said_by : Exec → List Message
said_by e = map output e.taken ++ last_words e.source

pub record IsSound (e : Exec) : Type 0 where
  pub whole : e.writer ≡ writing → e.sent ++ (e.write_ch ++ in_hand e.source) ≡ said_by e
  pub prefix : (rest : List Message) × (e.sent ++ rest ≡ said_by e)
  pub bound : length e.write_ch ≤ write_capacity

pub new_exec-IsSound : IsSound new_exec
unfolding new_exec said_by
new_exec-IsSound = record { whole = λ _. refl; prefix = ([], refl); bound = omega arith }

pub same : {e e' : Exec} → some e ≡ some e' → IsSound e → IsSound e'
same {e} {e'} p v = subst IsSound (some-injective _ _ p) v

Writer-cases : (w : Writer) → (w ≡ writing) ⊎ (w ≡ done)
Writer-cases writing = inl refl
Writer-cases done = inr refl

pub hears-IsSound :
    (e e' : Exec) (r : Reader) → IsSound e → exec_reader e hears r ≡ some e' → IsSound e'
unfolding exec_reader
hears-IsSound e e' reading v p = same p v
hears-IsSound e e' waiting v p = cc
hears-IsSound e e' returned v p = cc

pub hears_no_more-IsSound :
    (e e' : Exec) (r : Reader) → IsSound e → exec_reader e hears_no_more r ≡ some e' → IsSound e'
unfolding exec_reader said_by
hears_no_more-IsSound e e' reading v p =
    same p (record { whole = v.whole; prefix = v.prefix; bound = v.bound })
hears_no_more-IsSound e e' waiting v p = cc
hears_no_more-IsSound e e' returned v p = cc

pub leaves-IsSound :
    (e e' : Exec) (r : Reader) → IsSound e → exec_reader e leaves r ≡ some e' → IsSound e'
unfolding exec_reader said_by
leaves-IsSound e e' reading v p = cc
leaves-IsSound e e' waiting v p = elim (Writer-cases e.writer) [
  | inl w ↦ ground arith
  | inr w ↦
      same (rw (exec_reader, w) at p)
        (record { whole = v.whole; prefix = v.prefix; bound = v.bound })
]
leaves-IsSound e e' returned v p = cc

takes-IsSound :
    (e : Exec) (content : Bytes)
    → e.source ≡ taking
    → IsSound e
    → IsSound (record e { source = telling content; taken = e.taken ++ content ∷ [] })
unfolding said_by
takes-IsSound e content at v =
    let msg = output content ∷ [] in
    let heard : map output (e.taken ++ content ∷ []) ++ [] ≡ said_by e ++ msg = ground (
      arith,
      append-nil (map output e.taken),
      append-nil (map output (e.taken ++ content ∷ [])),
      map-append output e.taken (content ∷ []),
    ) in
    record {
      whole = λ w.
          ground
            (arith, v.whole w, heard, append-nil e.write_ch, append_assoc e.sent e.write_ch msg);
      prefix = (
        v.prefix.0 ++ msg,
        ground (arith, v.prefix.1, heard, append_assoc e.sent v.prefix.0 msg),
      );
      bound = v.bound;
    }

stream_ends-IsSound :
    (e : Exec) → e.source ≡ taking → IsSound e → IsSound (record e { source = exiting })
unfolding said_by
stream_ends-IsSound e at v =
    let msg = exit ∷ [] in
    let heard : map output e.taken ++ msg ≡ said_by e ++ msg =
      ground (arith, append-nil (map output e.taken)) in
    record {
      whole = λ w.
          ground
            (arith, v.whole w, heard, append-nil e.write_ch, append_assoc e.sent e.write_ch msg);
      prefix = (
        v.prefix.0 ++ msg,
        ground (arith, v.prefix.1, heard, append_assoc e.sent v.prefix.0 msg),
      );
      bound = v.bound;
    }

tell-IsSound :
    (e e' : Exec) (msg : Message) (next : Source)
    → in_hand e.source ≡ msg ∷ []
    → in_hand next ≡ []
    → last_words next ≡ last_words e.source
    → IsSound e
    → tell e msg next ≡ some e'
    → IsSound e'
unfolding tell said_by
tell-IsSound e e' msg next h n l v p = elim (Bool-cases (ltb (length e.write_ch) write_capacity)) [
  | inl room ↦ same (rw (tell, room) at p) (record {
    whole = λ w. ground (arith, v.whole w, append-nil (e.write_ch ++ msg ∷ []));
    prefix = (v.prefix.0, v.prefix.1 ∙ ap (λ xs. map output e.taken ++ xs) (sym l));
    bound = ground (arith, length-append e.write_ch (msg ∷ []));
  })
  | inr full ↦ ground arith
]

stop-IsSound :
    (e e' : Exec) (more : List Message)
    → last_words e.source ++ more ≡ exit ∷ []
    → IsSound e
    → stop_telling e ≡ some e'
    → IsSound e'
unfolding stop_telling said_by
stop-IsSound e e' more l v p = elim (Writer-cases e.writer) [
  | inl w ↦ ground arith
  | inr w ↦ same (rw (stop_telling, w) at p) (record {
    whole = λ w'. ground arith;
    prefix = (
      v.prefix.0 ++ more,
      ground (
        arith,
        v.prefix.1,
        append_assoc e.sent v.prefix.0 more,
        append_assoc (map output e.taken) (last_words e.source) more,
      ),
    );
    bound = v.bound;
  })
]

pub source_takes-IsSound :
    (e e' : Exec) (content : Bytes) (s : Source)
    → e.source ≡ s
    → IsSound e
    → exec_source e (takes content) s ≡ some e'
    → IsSound e'
unfolding exec_source
source_takes-IsSound e e' content taking at v p = same p (takes-IsSound e content at v)
source_takes-IsSound e e' content (telling other) at v p = cc
source_takes-IsSound e e' content exiting at v p = cc
source_takes-IsSound e e' content over at v p = cc

pub source_ends-IsSound :
    (e e' : Exec) (s : Source)
    → e.source ≡ s
    → IsSound e
    → exec_source e stream_ends s ≡ some e'
    → IsSound e'
unfolding exec_source
source_ends-IsSound e e' taking at v p = same p (stream_ends-IsSound e at v)
source_ends-IsSound e e' (telling other) at v p = cc
source_ends-IsSound e e' exiting at v p = cc
source_ends-IsSound e e' over at v p = cc

pub source_tells-IsSound :
    (e e' : Exec) (s : Source)
    → e.source ≡ s
    → IsSound e
    → exec_source e tells s ≡ some e'
    → IsSound e'
unfolding exec_source
source_tells-IsSound e e' taking at v p = cc
source_tells-IsSound e e' (telling content) at v p =
    tell-IsSound e e' (output content) taking (ap in_hand at) refl (sym (ap last_words at)) v
      (unfold tell in p)
source_tells-IsSound e e' exiting at v p =
    tell-IsSound e e' exit over (ap in_hand at) refl (sym (ap last_words at)) v (unfold tell in p)
source_tells-IsSound e e' over at v p = cc

pub source_gives_up-IsSound :
    (e e' : Exec) (s : Source)
    → e.source ≡ s
    → IsSound e
    → exec_source e gives_up s ≡ some e'
    → IsSound e'
unfolding exec_source
source_gives_up-IsSound e e' taking at v p = cc
source_gives_up-IsSound e e' (telling content) at v p =
    stop-IsSound e e' (exit ∷ []) (ap (λ s. last_words s ++ exit ∷ []) at) v
      (unfold stop_telling in p)
source_gives_up-IsSound e e' exiting at v p =
    stop-IsSound e e' [] (ap (λ s. last_words s ++ []) at) v (unfold stop_telling in p)
source_gives_up-IsSound e e' over at v p = cc
