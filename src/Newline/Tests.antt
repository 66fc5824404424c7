-- ===== src/Newline/Tests.antt =====
-- Examples of the conversion of line ends.
use cternal.Prelude.{◌≡◌, refl, Bytes, [], ◌∷◌}
use cternal.Newline.{normalize_lf}

abbrev mixed : Bytes
mixed = 97 ∷ 10 ∷ 98 ∷ 13 ∷ 10 ∷ 13 ∷ []

normalize_lf-mixed : normalize_lf mixed ≡ 97 ∷ 13 ∷ 10 ∷ 98 ∷ 13 ∷ 10 ∷ 13 ∷ []
unfolding normalize_lf
normalize_lf-mixed = refl
