-- ===== src/Api/Routes/Paths.antt =====
-- How the path of a request names a session and what is asked of it.
use cternal.Prelude.{
  ◌≡◌, ◌≢◌, arith, [], ◌∷◌, ◌++◌, Bytes, bytes_eq_iff, All, drop, length, drop-append,
}
use cternal.Std.Cut.{split_none, split-append}
use cternal.Api.Routes.{sessions_path, split_path}

-- A text with no slash in it.
abbrev pub IsPlain : Bytes → Type 0
IsPlain = All (λ c. c ≢ b'/')

-- The path of a session is its id with nothing behind it; a slash separates the id from what is asked
-- of the session.
pub split_path_lem :
    (id sub : Bytes)
    → IsPlain id
    → id ≢ []
    → (split_path id ≡ (id, [])) × (split_path (id ++ b'/' ∷ sub) ≡ (id, sub))
unfolding split_path
split_path_lem id sub h n = (
  rw (split_path, split_none b'/' id h),
  ground (arith, split-append b'/' id sub h, bytes_eq_iff id []),
)

-- What the handler reads of a path behind its prefix.
pub drop-prefix :
    (base rest : Bytes)
    → drop (length (base ++ sessions_path)) ((base ++ sessions_path) ++ rest) ≡ rest
drop-prefix base rest = drop-append (base ++ sessions_path) rest
