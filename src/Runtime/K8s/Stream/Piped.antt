-- ===== src/Runtime/K8s/Stream/Piped.antt =====
-- What the pipes of a stream carry.
use mathlib.Core.Path.{subst}
use mathlib.Core.Option.{some-injective}
use cternal.Prelude.{
  ℕ, zero, suc, ◌≤◌, ◌≡◌, refl, sym, ap, ◌∙◌, arith, Bool, true, false, not, ◌||◌, inl, inr, Option,
  none, some, List, [], ◌∷◌, ◌++◌, Bytes, take, drop, length, take-append-drop, append-nil,
  append_assoc, if◌then◌else◌, Option-cases, Bool-cases,
}
use cternal.Runtime.K8s.Stream.{
  Got, chunk, eof, K8sStream, new_k8s_stream, K8sMove, writes, reads, resizes, closes,
  parent_cancels, takes, stops_reading, puts, returns, still, buffer_size, k8s_write, k8s_read,
  k8s_close, k8s_take, k8s_put, k8s_return, k8s_move,
}

abbrev pub pending : Option Bytes → Bytes
pending none = []
pending (some content) = content

-- The texts that the calls of Read returned, one behind another, the longest of them, and whether one of
-- them returned the end.
abbrev pub received : List Got → Bytes
received [] = []
received (chunk c ∷ gs) = c ++ received gs
received (eof ∷ gs) = received gs

abbrev pub AllWithin : ℕ → List Got → Type 0
AllWithin n [] = zero ≤ n
AllWithin n (chunk c ∷ gs) = (length c ≤ n) × AllWithin n gs
AllWithin n (eof ∷ gs) = AllWithin n gs

abbrev pub has_eof : List Got → Bool
has_eof [] = false
has_eof (chunk c ∷ gs) = has_eof gs
has_eof (eof ∷ gs) = true

received-append : (gs hs : List Got) → received (gs ++ hs) ≡ received gs ++ received hs
received-append [] hs = refl
received-append (chunk c ∷ gs) hs =
    ap (◌++◌ c) (received-append gs hs) ∙ sym (append_assoc c (received gs) (received hs))
received-append (eof ∷ gs) hs = received-append gs hs

AllWithin-append :
    (n : ℕ) (gs hs : List Got) → AllWithin n gs → AllWithin n hs → AllWithin n (gs ++ hs)
AllWithin-append n [] hs v w = w
AllWithin-append n (chunk c ∷ gs) hs (a, v) w = (a, AllWithin-append n gs hs v w)
AllWithin-append n (eof ∷ gs) hs v w = AllWithin-append n gs hs v w

has_eof-append : (gs hs : List Got) → has_eof (gs ++ hs) ≡ (has_eof gs || has_eof hs)
has_eof-append [] hs = refl
has_eof-append (chunk c ∷ gs) hs = has_eof-append gs hs
has_eof-append (eof ∷ gs) hs = refl

length-take : {A : Type 0} (n : ℕ) (xs : List A) → length (take n xs) ≤ n
length-take zero xs = omega arith
length-take (suc n) [] = omega arith
length-take (suc n) (x ∷ xs) = omega (arith, length-take n xs)

pub pending-still : (rest : Bytes) → pending (still rest) ≡ rest
pending-still [] = refl
pending-still (c ∷ rest) = refl

-- What is read is what the executor has written.
pub record IsRead (s : K8sStream) : Type 0 where
  pub whole : s.is_running ≡ true → received s.got ++ pending s.stdout.offered ≡ s.put
  pub after : s.is_running ≡ false → s.cancelled ≡ false → received s.got ≡ s.put
  pub prefix : (rest : Bytes) × (received s.got ++ rest ≡ s.put)
  pub sizes : AllWithin buffer_size s.got
  pub ended : s.stdout.closed ≡ not s.is_running
  pub drained : s.is_running ≡ false → s.stdout.offered ≡ none
  pub eofs : s.is_running ≡ true → has_eof s.got ≡ false

-- What the executor takes is what was given to Write.
pub record IsTaken (s : K8sStream) : Type 0 where
  pub whole : s.stdin.closed ≡ false → s.taken ++ pending s.stdin.offered ≡ s.given
  pub prefix : (rest : Bytes) × (s.taken ++ rest ≡ s.given)
  pub drained : s.stdin.closed ≡ true → s.stdin.offered ≡ none

pub new_k8s_stream-IsRead : IsRead new_k8s_stream
unfolding new_k8s_stream
new_k8s_stream-IsRead = record {
  whole = λ _. refl;
  after = λ _ _. refl;
  prefix = ([], refl);
  sizes = omega arith;
  ended = refl;
  drained = λ _. refl;
  eofs = λ _. refl;
}

pub new_k8s_stream-IsTaken : IsTaken new_k8s_stream
unfolding new_k8s_stream
new_k8s_stream-IsTaken = record { whole = λ _. refl; prefix = ([], refl); drained = λ _. refl }

still_running : (s : K8sStream) → IsRead s → s.stdout.closed ≡ false → s.is_running ≡ true
still_running s v c = ground (arith, v.ended)

k8s_read-IsRead :
    (s s' : K8sStream) (b : Bool) (o : Option Bytes)
    → s.stdout.closed ≡ b
    → s.stdout.offered ≡ o
    → IsRead s
    → k8s_read s b o ≡ some s'
    → IsRead s'
unfolding k8s_read
k8s_read-IsRead s s' true o c e v p =
    let got : received (s.got ++ eof ∷ []) ≡ received s.got =
      received-append s.got (eof ∷ []) ∙ append-nil (received s.got) in
    subst IsRead (some-injective _ _ p) (record {
      whole = λ h. ap (λ (g : Bytes). g ++ pending s.stdout.offered) got ∙ v.whole h;
      after = λ h h'. got ∙ v.after h h';
      prefix = (v.prefix.0, ap (λ (g : Bytes). g ++ v.prefix.0) got ∙ v.prefix.1);
      sizes = AllWithin-append buffer_size s.got (eof ∷ []) v.sizes (omega arith);
      ended = v.ended;
      drained = v.drained;
      eofs = λ r. absurd (ground (arith, v.ended));
    })
k8s_read-IsRead s s' false none c e v p = absurd (ground arith)
k8s_read-IsRead s s' false (some content) c e v p =
    let first = take buffer_size content in
    let rest = drop buffer_size content in
    let got : received (s.got ++ chunk first ∷ []) ≡ received s.got ++ first =
      received-append s.got (chunk first ∷ []) ∙ ap (◌++◌ (received s.got)) (append-nil first) in
    let halves : first ++ pending (still rest) ≡ content =
      ap (◌++◌ first) (pending-still rest) ∙ take-append-drop buffer_size content in
    let whole : received (s.got ++ chunk first ∷ []) ++ pending (still rest) ≡ s.put =
      ap (λ (g : Bytes). g ++ pending (still rest)) got
      ∙ append_assoc (received s.got) first (pending (still rest))
      ∙ ap (◌++◌ (received s.got)) (halves ∙ ap pending (sym e))
      ∙ v.whole (still_running s v c) in
    subst IsRead (some-injective _ _ p) (record {
      whole = λ h. whole;
      after = λ h. absurd (ground (arith, still_running s v c));
      prefix = (pending (still rest), whole);
      sizes =
          AllWithin-append buffer_size s.got (chunk first ∷ []) v.sizes
            (length-take buffer_size content, omega arith);
      ended = sym c ∙ v.ended;
      drained = λ r. absurd (ground (arith, still_running s v c));
      eofs =
          λ r. has_eof-append s.got (chunk first ∷ []) ∙ ap (λ (b : Bool). b || false) (v.eofs r);
    })

k8s_put-IsRead :
    (s s' : K8sStream) (content : Bytes) (b : Bool) (o : Option Bytes)
    → s.is_running ≡ b
    → s.stdout.offered ≡ o
    → IsRead s
    → k8s_put s content b o ≡ some s'
    → IsRead s'
unfolding k8s_put
k8s_put-IsRead s s' content false o r e v p = absurd (ground arith)
k8s_put-IsRead s s' content true (some busy) r e v p = absurd (ground arith)
k8s_put-IsRead s s' content true none r e v p =
    let whole : received s.got ++ content ≡ s.put ++ content =
      ap (λ (g : Bytes). g ++ content)
        (sym (append-nil (received s.got))
          ∙ ap (λ o'. received s.got ++ pending o') (sym e)
          ∙ v.whole r) in
    subst IsRead (some-injective _ _ p) (record {
      whole = λ h. whole;
      after = λ h. absurd (ground arith);
      prefix = (content, whole);
      sizes = v.sizes;
      ended = ground (arith, r);
      drained = λ h. absurd (ground arith);
      eofs = v.eofs;
    })

returned-IsRead :
    (s : K8sStream)
    → s.is_running ≡ true
    → (s.cancelled ≡ false → s.stdout.offered ≡ none)
    → IsRead s
    → IsRead (record s { is_running = false; stdout = record { offered = none; closed = true } })
returned-IsRead s r e v = record {
  whole = λ h. absurd (ground arith);
  after = λ h h'.
      sym (append-nil (received s.got))
      ∙ ap (λ o'. received s.got ++ pending o') (sym (e h'))
      ∙ v.whole r;
  prefix = v.prefix;
  sizes = v.sizes;
  ended = refl;
  drained = λ h. refl;
  eofs = λ h. absurd (ground arith);
}

k8s_return-IsRead :
    (s s' : K8sStream) (b : Bool) (o : Option Bytes)
    → s.is_running ≡ b
    → s.stdout.offered ≡ o
    → IsRead s
    → k8s_return s b o ≡ some s'
    → IsRead s'
unfolding k8s_return
k8s_return-IsRead s s' false o r e v p = absurd (ground arith)
k8s_return-IsRead s s' true none r e v p =
    subst IsRead (some-injective _ _ p) (returned-IsRead s r (λ _. e) v)
k8s_return-IsRead s s' true (some content) r e v p = elim (Bool-cases s.cancelled) [
  | inr keeps ↦ absurd (let p' = rw keeps at p in cc)
  | inl over ↦
      let s'' = record s {
        is_running = false;
        stdout = record { offered = none; closed = true };
      } in
      let q : some s'' ≡ some s' = ap (λ (b : Bool). if b then some s'' else none) (sym over) ∙ p in
      subst IsRead (some-injective _ _ q) (returned-IsRead s r (λ h. absurd (ground arith)) v)
]

-- The other steps leave the standard output and what is read of it as they are.
IsRead-keeps :
    (s s' : K8sStream)
    → s'.stdout ≡ s.stdout
    → s'.is_running ≡ s.is_running
    → s'.got ≡ s.got
    → s'.put ≡ s.put
    → (s'.cancelled ≡ false → s.cancelled ≡ false)
    → IsRead s
    → IsRead s'
IsRead-keeps s s' o r g u c v = record {
  whole = λ h. rw (o, g, u) (v.whole (sym r ∙ h));
  after = λ h h'. rw (g, u) (v.after (sym r ∙ h) (c h'));
  prefix = rw (g, u) v.prefix;
  sizes = rw g v.sizes;
  ended = rw (o, r) v.ended;
  drained = λ h. rw o (v.drained (sym r ∙ h));
  eofs = λ h. rw g (v.eofs (sym r ∙ h));
}

k8s_take-keeps :
    (s s' : K8sStream) (n : ℕ) (b : Bool) (o : Option Bytes)
    → IsRead s
    → k8s_take s n b o ≡ some s'
    → IsRead s'
unfolding k8s_take
k8s_take-keeps s s' n false o v p = absurd (ground arith)
k8s_take-keeps s s' n true none v p = absurd (ground arith)
k8s_take-keeps s s' n true (some content) v p = elim (Option-cases (still (drop n content))) [
  | inl all ↦ let p' = rw (k8s_take, all) at p in IsRead-keeps s s' (cc) (cc) (cc) (cc) (λ h. cc) v
  | inr (rest, some_left) ↦
      let p' = rw (k8s_take, some_left) at p in IsRead-keeps s s' (cc) (cc) (cc) (cc) (λ h. cc) v
]

k8s_write-keeps :
    (s s' : K8sStream) (content : Bytes) (o : Option Bytes)
    → IsRead s
    → k8s_write s content o ≡ some s'
    → IsRead s'
unfolding k8s_write
k8s_write-keeps s s' content (some busy) v p = absurd (ground arith)
k8s_write-keeps s s' content none v p =
    IsRead-keeps s s' (ground arith) (ground arith) (ground arith) (ground arith)
      (λ h. ground arith) v

k8s_close-keeps : (s : K8sStream) (o : Option Bytes) → IsRead s → IsRead (k8s_close s o)
unfolding k8s_close
k8s_close-keeps s none v = IsRead-keeps s _ refl refl refl refl (λ h. absurd (ground arith)) v
k8s_close-keeps s (some content) v =
    IsRead-keeps s _ refl refl refl refl (λ h. absurd (ground arith)) v

pub k8s_move-IsRead :
    (s s' : K8sStream) (m : K8sMove) → IsRead s → k8s_move s m ≡ some s' → IsRead s'
unfolding k8s_move
k8s_move-IsRead s s' (writes content) v p = k8s_write-keeps s s' content s.stdin.offered v p
k8s_move-IsRead s s' reads v p = k8s_read-IsRead s s' s.stdout.closed s.stdout.offered refl refl v p
k8s_move-IsRead s s' (resizes cols rows) v p = subst IsRead (some-injective _ _ p) v
k8s_move-IsRead s s' closes v p =
    subst IsRead (some-injective _ _ p) (k8s_close-keeps s s.stdin.offered v)
k8s_move-IsRead s s' parent_cancels v p =
    subst IsRead (some-injective _ _ p)
      (IsRead-keeps s _ refl refl refl refl (λ h. absurd (ground arith)) v)
k8s_move-IsRead s s' (takes n) v p = k8s_take-keeps s s' n s.is_reading s.stdin.offered v p
k8s_move-IsRead s s' stops_reading v p =
    subst IsRead (some-injective _ _ p) (IsRead-keeps s _ refl refl refl refl (λ h. h) v)
k8s_move-IsRead s s' (puts content) v p =
    k8s_put-IsRead s s' content s.is_running s.stdout.offered refl refl v p
k8s_move-IsRead s s' returns v p =
    k8s_return-IsRead s s' s.is_running s.stdout.offered refl refl v p
