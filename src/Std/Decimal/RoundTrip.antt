-- ===== src/Std/Decimal/RoundTrip.antt =====
-- What Sprintf prints with %d is what Sscanf reads with it.
use cternal.Prelude.{
  ℕ, zero, suc, ◌+◌, ◌/◌, ◌%◌, ◌^◌, ◌<◌, ◌≡◌, refl, ◌∙◌, arith, true, some, [], ◌∷◌, ◌++◌, Bytes,
  append-nil, ltb, Bool-cases, inl, inr,
}
use cternal.Prelude.Int.{pos}
use cternal.Std.Decimal.{
  emit, format_uint, is_digit, scan_digits, skip_space, scan_int, scan_size, format_size,
}

emit-append : (f n : ℕ) (out rest : Bytes) → emit f n out ++ rest ≡ emit f n (out ++ rest)
unfolding emit
emit-append zero n out rest = refl
emit-append (suc f) n out rest = ground (arith, emit-append f (n / 10) ((b'0' + n % 10) ∷ out) rest)

scan-emit : (f n : ℕ) (out : Bytes) → n < f → scan_digits (emit f n out) 0 ≡ scan_digits out n
unfolding emit scan_digits
scan-emit zero n out h = elim h [ ]
scan-emit (suc f) n out h = ground (arith, scan-emit f (n / 10) ((b'0' + n % 10) ∷ out))

emit-head :
    (f n : ℕ) (out : Bytes)
    → n < f
    → (c : ℕ) × (s : Bytes) × (emit f n out ≡ c ∷ s) × (is_digit c ≡ true)
unfolding emit
emit-head zero n out h = elim h [ ]
emit-head (suc f) n out h = elim (Bool-cases (ltb n 10)) [
  | inl last ↦ (b'0' + n, out, ground arith, ground arith)
  | inr more ↦
      let (c, s, e, d) = emit-head f (n / 10) ((b'0' + n % 10) ∷ out) (ground arith) in
      (c, s, ground arith, d)
]

skip-digit : (c : ℕ) (s : Bytes) → is_digit c ≡ true → skip_space (c ∷ s) ≡ some (c ∷ s)
unfolding skip_space
skip-digit c [] h = ground arith
skip-digit c (d ∷ s) h = ground arith

scan_int-digit :
    (c : ℕ) (s : Bytes) (n : ℕ) (rest : Bytes)
    → is_digit c ≡ true
    → scan_digits (c ∷ s) 0 ≡ (n, rest)
    → n < 2 ^ 63
    → scan_int (c ∷ s) ≡ some (pos n, rest)
unfolding scan_int
scan_int-digit c s n rest h e lt = ground (arith, skip-digit c s h)

scan_int-emit :
    (n : ℕ) (rest : Bytes)
    → n < 2 ^ 63
    → scan_digits rest n ≡ (n, rest)
    → scan_int (format_uint n ++ rest) ≡ some (pos n, rest)
unfolding format_uint
scan_int-emit n rest lt stops =
    let (c, s, e, d) = emit-head (suc n) n rest (omega arith) in
    rw (emit-append (suc n) n [] rest, e)
      (scan_int-digit c s n rest d (rw (← e) (scan-emit (suc n) n rest (omega arith) ∙ stops)) lt)

stops_at_x : (n : ℕ) (s : Bytes) → scan_digits (b'x' ∷ s) n ≡ (n, b'x' ∷ s)
unfolding scan_digits
stops_at_x n s = refl

stops_at_end : (n : ℕ) → scan_digits [] n ≡ (n, [])
unfolding scan_digits
stops_at_end n = refl

pub scan_size-format_size :
    (c h : ℕ) → c < 2 ^ 63 → h < 2 ^ 63 → scan_size (format_size c h) ≡ some (pos c, pos h)
unfolding scan_size format_size
scan_size-format_size c h lc lh = ground (
  arith,
  scan_int-emit c (b'x' ∷ format_uint h) lc (stops_at_x c _),
  scan_int-emit h [] lh (stops_at_end h),
  append-nil (format_uint h),
)
