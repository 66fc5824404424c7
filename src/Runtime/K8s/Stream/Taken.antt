-- ===== src/Runtime/K8s/Stream/Taken.antt =====
-- What the executor takes of the standard input.
use mathlib.Core.Path.{subst}
use mathlib.Core.Option.{some-injective}
use cternal.Prelude.{
  ℕ, ◌≡◌, refl, sym, ap, ◌∙◌, arith, Bool, true, false, inl, inr, Option, none, some, List, [], ◌∷◌,
  ◌++◌, Bytes, take, drop, take-append-drop, append-nil, append_assoc, if◌then◌else◌, Option-cases,
  Bool-cases,
}
use cternal.Runtime.K8s.Stream.Piped.{pending, pending-still, IsTaken}
use cternal.Runtime.K8s.Stream.{
  Pipe, Wrote, nil_error, closed_pipe, K8sStream, K8sMove, writes, reads, resizes, closes,
  parent_cancels, takes, stops_reading, puts, returns, still, k8s_write, k8s_read, k8s_close,
  k8s_take, k8s_put, k8s_return, k8s_move,
}

-- The steps that leave the standard input as it is.
IsTaken-keeps :
    (s s' : K8sStream)
    → s'.stdin ≡ s.stdin
    → s'.taken ≡ s.taken
    → s'.given ≡ s.given
    → IsTaken s
    → IsTaken s'
IsTaken-keeps s s' i t g v = record {
  whole = λ h. rw (i, t, g) (v.whole (ap (λ (q : Pipe). q.closed) (sym i) ∙ h));
  prefix = rw (t, g) v.prefix;
  drained = λ h. rw i (v.drained (ap (λ (q : Pipe). q.closed) (sym i) ∙ h));
}

k8s_write-IsTaken :
    (s s' : K8sStream) (content : Bytes) (o : Option Bytes)
    → s.stdin.offered ≡ o
    → IsTaken s
    → k8s_write s content o ≡ some s'
    → IsTaken s'
unfolding k8s_write
k8s_write-IsTaken s s' content (some busy) e v p = absurd (ground arith)
k8s_write-IsTaken s s' [] none e v p =
    IsTaken-keeps s s' (ground arith) (ground arith) (ground arith) v
k8s_write-IsTaken s s' (c ∷ content) none e v p = elim (Bool-cases s.stdin.closed) [
  | inl shut ↦
      let p' = rw (k8s_write, shut) at p in
      IsTaken-keeps s s' (ground arith) (ground arith) (ground arith) v
  | inr usable ↦
      let s'' : K8sStream = record s {
        stdin = record { offered = some (c ∷ content); closed = false };
        given = s.given ++ c ∷ content;
      } in
      let q : some s'' ≡ some s' =
        ap
          (λ (b : Bool).
            if b then some (record s { wrote = s.wrote ++ closed_pipe ∷ [] }) else some s'')
          (sym usable)
        ∙ p in
      let whole : s.taken ++ c ∷ content ≡ s.given ++ c ∷ content =
        ap (λ (g : Bytes). g ++ c ∷ content)
          (sym (append-nil s.taken) ∙ ap (λ o'. s.taken ++ pending o') (sym e) ∙ v.whole usable) in
      subst IsTaken (some-injective _ _ q) (record {
        whole = λ h. whole;
        prefix = (c ∷ content, whole);
        drained = λ h. absurd (ground arith);
      })
]

k8s_close-IsTaken : (s : K8sStream) (o : Option Bytes) → IsTaken s → IsTaken (k8s_close s o)
unfolding k8s_close
k8s_close-IsTaken s none v = record {
  whole = λ h. absurd (ground arith);
  prefix = v.prefix;
  drained = λ h. refl;
}
k8s_close-IsTaken s (some content) v = record {
  whole = λ h. absurd (ground arith);
  prefix = v.prefix;
  drained = λ h. refl;
}

open_while_offered :
    (s : K8sStream) (content : Bytes)
    → s.stdin.offered ≡ some content
    → IsTaken s
    → s.stdin.closed ≡ false
open_while_offered s content e v = elim (Bool-cases s.stdin.closed) [
  | inr usable ↦ usable
  | inl shut ↦ absurd (ground (arith, v.drained shut))
]

took_some :
    (s : K8sStream) (n : ℕ) (content : Bytes) (o : Option Bytes) (wrote : List Wrote)
    → s.stdin.offered ≡ some content
    → pending o ≡ drop n content
    → IsTaken s
    → IsTaken (record s {
      stdin = record { offered = o; closed = s.stdin.closed };
      wrote = wrote;
      taken = s.taken ++ take n content;
    })
took_some s n content o wrote e left v =
    let usable = open_while_offered s content e v in
    let whole : (s.taken ++ take n content) ++ pending o ≡ s.given =
      append_assoc s.taken (take n content) (pending o)
      ∙ ap (◌++◌ s.taken)
          (ap (◌++◌ (take n content)) left ∙ take-append-drop n content ∙ ap pending (sym e))
      ∙ v.whole usable in
    record { whole = λ h. whole; prefix = (pending o, whole); drained = λ h. absurd (ground arith) }

k8s_take-IsTaken :
    (s s' : K8sStream) (n : ℕ) (b : Bool) (o : Option Bytes)
    → s.stdin.offered ≡ o
    → IsTaken s
    → k8s_take s n b o ≡ some s'
    → IsTaken s'
unfolding k8s_take
k8s_take-IsTaken s s' n false o e v p = absurd (ground arith)
k8s_take-IsTaken s s' n true none e v p = absurd (ground arith)
k8s_take-IsTaken s s' n true (some content) e v p = elim (Option-cases (still (drop n content))) [
  | inl all ↦ subst IsTaken (some-injective _ _ (rw (k8s_take, all) at p)) (
      took_some s n content none (s.wrote ++ nil_error ∷ []) e
        (ap pending (sym all) ∙ pending-still (drop n content)) v)
  | inr (rest, some_left) ↦ subst IsTaken (some-injective _ _ (rw (k8s_take, some_left) at p)) (
      took_some s n content (some rest) s.wrote e
        (ap pending (sym some_left) ∙ pending-still (drop n content)) v)
]

k8s_read-keeps :
    (s s' : K8sStream) (b : Bool) (o : Option Bytes)
    → IsTaken s
    → k8s_read s b o ≡ some s'
    → IsTaken s'
unfolding k8s_read
k8s_read-keeps s s' b o v p = IsTaken-keeps s s' (ground arith) (ground arith) (ground arith) v

k8s_put-keeps :
    (s s' : K8sStream) (content : Bytes) (b : Bool) (o : Option Bytes)
    → IsTaken s
    → k8s_put s content b o ≡ some s'
    → IsTaken s'
unfolding k8s_put
k8s_put-keeps s s' content b o v p =
    IsTaken-keeps s s' (ground arith) (ground arith) (ground arith) v

k8s_return-keeps :
    (s s' : K8sStream) (b : Bool) (o : Option Bytes)
    → IsTaken s
    → k8s_return s b o ≡ some s'
    → IsTaken s'
unfolding k8s_return
k8s_return-keeps s s' b o v p = IsTaken-keeps s s' (ground arith) (ground arith) (ground arith) v

pub k8s_move-IsTaken :
    (s s' : K8sStream) (m : K8sMove) → IsTaken s → k8s_move s m ≡ some s' → IsTaken s'
unfolding k8s_move
k8s_move-IsTaken s s' (writes content) v p = k8s_write-IsTaken s s' content s.stdin.offered refl v p
k8s_move-IsTaken s s' reads v p = k8s_read-keeps s s' s.stdout.closed s.stdout.offered v p
k8s_move-IsTaken s s' (resizes cols rows) v p = subst IsTaken (some-injective _ _ p) v
k8s_move-IsTaken s s' closes v p =
    subst IsTaken (some-injective _ _ p) (k8s_close-IsTaken s s.stdin.offered v)
k8s_move-IsTaken s s' parent_cancels v p =
    subst IsTaken (some-injective _ _ p) (IsTaken-keeps s _ refl refl refl v)
k8s_move-IsTaken s s' (takes n) v p = k8s_take-IsTaken s s' n s.is_reading s.stdin.offered refl v p
k8s_move-IsTaken s s' stops_reading v p =
    subst IsTaken (some-injective _ _ p) (IsTaken-keeps s _ refl refl refl v)
k8s_move-IsTaken s s' (puts content) v p =
    k8s_put-keeps s s' content s.is_running s.stdout.offered v p
k8s_move-IsTaken s s' returns v p = k8s_return-keeps s s' s.is_running s.stdout.offered v p
