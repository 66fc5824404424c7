-- ===== src/Std/Decimal.antt =====
-- Decimal numbers of package fmt: the verb %d of Sprintf on an unsigned number, and of Sscanf into an
-- int.
pub mod RoundTrip
use cternal.Prelude.{
  ℕ, zero, suc, ◌+◌, ◌-◌, ◌*◌, ◌/◌, ◌%◌, ◌^◌, Bool, true, false, ◌&&◌, Option, none, some, [], ◌∷◌,
  ◌++◌, Bytes, ◌==◌, leb, ltb, if◌then◌else◌,
}
use cternal.Prelude.Int.{ℤ, pos, negsuc}

-- The digits of a number in front of `out`; the fuel bounds their count.
emit : ℕ → ℕ → Bytes → Bytes
emit zero n out = out
emit (suc fuel) n out =
    let shorter = emit fuel (n / 10) ((b'0' + n % 10) ∷ out) in
    if ltb n 10 then (b'0' + n) ∷ out else shorter

unfoldable pub format_uint : ℕ → Bytes
unfolding emit
format_uint n = emit (suc n) n []

abbrev is_digit : ℕ → Bool
is_digit c = leb b'0' c && leb c b'9'

-- The longest run of digits, as the value that it continues, and the text behind it.
scan_digits : Bytes → ℕ → ℕ × Bytes
scan_digits [] n = (n, [])
scan_digits (c ∷ s) n =
    let more = scan_digits s (n * 10 + (c - b'0')) in if is_digit c then more else (n, c ∷ s)

-- SkipSpace: a line break is an error, unless a carriage return stands before it.
skip_space : Bytes → Option Bytes
skip_space [] = some []
skip_space (c ∷ []) =
    if c == 10
    then none
    else if (leb 9 c && leb c 13)
    then some []
    else if c == 32
    then some []
    else some (c ∷ [])
skip_space (c ∷ d ∷ s) =
    let rest = skip_space (d ∷ s) in
    let behind = skip_space s in
    if (c == 13) && (d == 10)
    then behind
    else if c == 10
    then none
    else if leb 9 c && leb c 13
    then rest
    else if c == 32
    then rest
    else some (c ∷ d ∷ s)

-- An accepted token is a value of int64.
signed : Bool → ℕ → Option ℤ
signed true n =
    if n == 0 then some (pos 0) else if leb n (2 ^ 63) then some (negsuc (n - 1)) else none
signed false n = if ltb n (2 ^ 63) then some (pos n) else none

-- One or more digits behind an optional sign.
number : Bool → Bytes → Option (ℤ × Bytes)
unfolding scan_digits signed
number negative [] = none
number negative (c ∷ s) =
    let (n, rest) = scan_digits (c ∷ s) 0 in
    if is_digit c then elim (signed negative n) [ none ↦ none | some z ↦ some (z, rest) ] else none

after_space : Bytes → Option (ℤ × Bytes)
unfolding number
after_space [] = none
after_space (c ∷ s) =
    if c == b'-' then number true s else if c == b'+' then number false s else number false (c ∷ s)

-- %d of Sscanf
unfoldable pub scan_int : Bytes → Option (ℤ × Bytes)
unfolding skip_space after_space
scan_int s = elim (skip_space s) [ none ↦ none | some t ↦ after_space t ]

-- Sscanf with the format "%dx%d"; text behind the second number is ignored.
unfoldable pub scan_size : Bytes → Option (ℤ × ℤ)
unfolding scan_int
scan_size s = elim (scan_int s) [
  | none ↦ none
  | some (c, []) ↦ none
  | some (c, x ∷ rest) ↦
      if x == b'x' then elim (scan_int rest) [ none ↦ none | some (h, _) ↦ some (c, h) ] else none
]

-- Sprintf with the format "%dx%d"
unfoldable pub format_size : ℕ → ℕ → Bytes
unfolding format_uint
format_size c h = format_uint c ++ b'x' ∷ format_uint h
