-- ===== src/Std/Cut.antt =====
-- What strings.IndexByte and strings.Cut find.
use cternal.Prelude.{ℕ, ◌≡◌, ◌≢◌, refl, arith, none, some, [], ◌∷◌, ◌++◌, Bytes, All}
use cternal.Std.{split_at_byte}

pub split_none : (sep : ℕ) (s : Bytes) → All (λ c. c ≢ sep) s → split_at_byte sep s ≡ none
unfolding split_at_byte
split_none sep [] h = refl
split_none sep (c ∷ s) h = ground (arith, split_none sep s h.1)

pub split-append :
    (sep : ℕ) (before after : Bytes)
    → All (λ c. c ≢ sep) before
    → split_at_byte sep (before ++ sep ∷ after) ≡ some (before, after)
unfolding split_at_byte
split-append sep [] after h = ground arith
split-append sep (c ∷ before) after h = ground (arith, split-append sep before after h.1)
