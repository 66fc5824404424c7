-- ===== src/Std/Trim.antt =====
-- What strings.TrimSpace leaves alone, and what strings.TrimPrefix takes off.
use cternal.Prelude.{arith, some, ℕ, ◌≡◌, refl, [], ◌∷◌, ◌++◌, Bytes, codes}
use cternal.Std.{is_space, trim_left, trim_right, trim_space, strip_prefix, trim_prefix}

trim_right-bracket :
    (s : Bytes)
    → (c : ℕ) × (rest : Bytes) × (s ++ codes "]" ≡ c ∷ rest)
      × (trim_right (s ++ codes "]") ≡ c ∷ rest)
unfolding trim_right is_space
trim_right-bracket [] = (b']', [], refl, refl)
trim_right-bracket (c ∷ s) =
    let (d, rest, e, trimmed) = trim_right-bracket s in (c, d ∷ rest, rw e refl, rw trimmed refl)

pub trim_space-brackets :
    (s : Bytes) → trim_space (b'[' ∷ (s ++ codes "]")) ≡ b'[' ∷ (s ++ codes "]")
unfolding trim_space trim_left trim_right is_space
trim_space-brackets s =
    let (d, rest, e, trimmed) = trim_right-bracket s in
    rw (trim_space, trim_left, trim_right, trimmed, e) refl

pub strip_prefix-append : (p s : Bytes) → strip_prefix p (p ++ s) ≡ some s
unfolding strip_prefix
strip_prefix-append [] s = refl
strip_prefix-append (c ∷ p) s = ground (arith, strip_prefix-append p s)

pub trim_prefix-append : (p s : Bytes) → trim_prefix (p ++ s) p ≡ s
unfolding trim_prefix
trim_prefix-append p s = rw (trim_prefix, strip_prefix-append p s) refl
