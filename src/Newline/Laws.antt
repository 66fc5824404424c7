-- ===== src/Newline/Laws.antt =====
-- Every line feed gets one carriage return in front of it, and nothing else changes.
use cternal.Prelude.{
  ℕ, ◌≡◌, refl, ap, ◌∙◌, arith, Bool, true, false, Bool-cases, inl, inr, ◌&&◌, [], ◌∷◌, ◌++◌, Bytes,
  ◌==◌, if◌then◌else◌,
}
use cternal.Std.{replace_all}
use cternal.Newline.{lf, crlf, normalize_lf, normalize_lf_bytes}

-- The first call takes the carriage return of each pair away, and the second puts one before each
-- line feed.
join : Bytes → Bytes
unfolding replace_all
join s = replace_all s crlf lf

spread : Bytes → Bytes
unfolding replace_all
spread s = replace_all s lf crlf

abbrev pub starts_lf : Bytes → Bool
starts_lf [] = false
starts_lf (c ∷ s) = c == 10

join-pair : (c d : ℕ) (s : Bytes) → ((c == 13) && (d == 10)) ≡ true → join (c ∷ d ∷ s) ≡ 10 ∷ join s
unfolding join
join-pair c d s h = ground arith

join-other : (c : ℕ) (s : Bytes) → ((c == 13) && starts_lf s) ≡ false → join (c ∷ s) ≡ c ∷ join s
unfolding join
join-other c [] h = ground arith
join-other c (d ∷ s) h = ground arith

spread-cons :
    (c : ℕ) (s : Bytes) → spread (c ∷ s) ≡ (if c == 10 then 13 ∷ 10 ∷ spread s else c ∷ spread s)
unfolding spread
spread-cons c s = ground arith

spread-no_lf : (s : Bytes) → starts_lf (spread s) ≡ false
spread-no_lf [] = unfold spread in refl
spread-no_lf (c ∷ s) = rw spread-cons (ground arith)

join-spread : (s : Bytes) → join (spread s) ≡ s
join-spread [] = unfold join spread in refl
join-spread (c ∷ s) = ground (
  arith,
  spread-cons c s,
  join-pair 13 10 (spread s),
  join-other c (spread s),
  spread-no_lf s,
  join-spread s,
)

spread-append : (s t : Bytes) → spread (s ++ t) ≡ spread s ++ spread t
spread-append [] t = unfold spread in refl
spread-append (c ∷ s) t = ground (arith, spread-cons c (s ++ t), spread-cons c s, spread-append s t)

-- The first text ends in a carriage return whose line feed begins the second.
unfoldable pub cuts_pair : Bytes → Bytes → Bool
cuts_pair [] t = false
cuts_pair (c ∷ []) t = (c == 13) && starts_lf t
cuts_pair (c ∷ d ∷ s) t = cuts_pair (d ∷ s) t

cuts_pair-tail : (d : ℕ) (s t : Bytes) → cuts_pair (d ∷ s) t ≡ false → cuts_pair s t ≡ false
unfolding cuts_pair
cuts_pair-tail d [] t h = refl
cuts_pair-tail d (c ∷ s) t h = h

join-append : (s t : Bytes) → cuts_pair s t ≡ false → join (s ++ t) ≡ join s ++ join t
unfolding cuts_pair
join-append [] t h = unfold join in refl
join-append (c ∷ []) t h =
    let alone : join (c ∷ []) ≡ c ∷ [] = unfold join in ground arith in rw (join-other c t h, alone)
join-append (c ∷ d ∷ s) t h = elim (Bool-cases ((c == 13) && (d == 10))) [
  | inl pair ↦
      rw (join-pair c d s pair, join-pair c d (s ++ t) pair)
        (ap (◌∷◌ 10) (join-append s t (cuts_pair-tail d s t h)))
  | inr other ↦
      rw (join-other c (d ∷ s) other, join-other c (d ∷ (s ++ t)) other)
        (ap (◌∷◌ c) (join-append (d ∷ s) t h))
]

-- Every line feed of the text stands behind a carriage return; the Boolean says whether one precedes
-- the text.
abbrev pub IsCrlf : Bool → Bytes → Type 0
IsCrlf returned [] = Unit {0}
IsCrlf returned (c ∷ s) = (c ≡ 10 → returned ≡ true) × IsCrlf (c == 13) s

spread-IsCrlf : (s : Bytes) (b : Bool) → IsCrlf b (spread s)
spread-IsCrlf [] b = unfold spread in tt
spread-IsCrlf (c ∷ s) b =
    rw (spread-cons c s) (ground (arith, spread-IsCrlf s false, spread-IsCrlf s (c == 13)))

-- In what is sent to the terminal every line feed stands behind a carriage return.
pub normalize_lf-IsCrlf : (s : Bytes) → IsCrlf false (normalize_lf s)
unfolding normalize_lf join spread
normalize_lf-IsCrlf s = spread-IsCrlf (join s) false

-- Taking those carriage returns away again gives what they were put into: the text with its pairs
-- joined, so no other byte is changed, moved or lost.
pub normalize_lf-join : (s : Bytes) → replace_all (normalize_lf s) crlf lf ≡ replace_all s crlf lf
unfolding normalize_lf join spread
normalize_lf-join s = join-spread (join s)

-- Text that is normal already is left alone, so no line feed gets a second carriage return.
pub normalize_lf_idem : (s : Bytes) → normalize_lf (normalize_lf s) ≡ normalize_lf s
unfolding normalize_lf join spread
normalize_lf_idem s = ap spread (join-spread (join s))

-- Chunks may be converted one by one, as a stream's reader does, unless one ends between a carriage
-- return and its line feed.
pub normalize_lf-append :
    (s t : Bytes) → cuts_pair s t ≡ false → normalize_lf (s ++ t) ≡ normalize_lf s ++ normalize_lf t
unfolding normalize_lf join spread
normalize_lf-append s t h = ap spread (join-append s t h) ∙ spread-append (join s) (join t)

-- The two copies of the conversion agree.
pub normalize_lf_bytes-eq : (s : Bytes) → normalize_lf_bytes s ≡ normalize_lf s
unfolding normalize_lf_bytes normalize_lf
normalize_lf_bytes-eq s = refl
