-- ===== src/Serve/Urls.antt =====
-- Which webhook URLs the server is given.
use cternal.Prelude.{
  ℕ, ◌≡◌, ◌≢◌, refl, ap, ◌∙◌, arith, Bool-cases, inl, inr, List, [], ◌∷◌, ◌++◌, Bytes, bytes_eq,
  bytes_eq_iff, All, append_assoc, ◌==◌,
}
use cternal.Std.{split, trim_space}
use cternal.Serve.{trimmed, urls_of, webhook_urls}

-- A part of a list has no comma.
HasOne : Bytes → Type 0
HasOne = All (λ c. c ≢ b',')

-- A byte in front of the first part.
extend : ℕ → List Bytes → List Bytes
extend c [] = (c ∷ []) ∷ []
extend c (part ∷ parts) = (c ∷ part) ∷ parts

extend-HasOne :
    (c : ℕ) (parts : List Bytes) → c ≢ b',' → All HasOne parts → All HasOne (extend c parts)
unfolding extend HasOne
extend-HasOne c [] n h = ((n, tt), tt)
extend-HasOne c (part ∷ parts) n (h, hs) = ((n, h), hs)

split-HasOne : (s : Bytes) → All HasOne (split b',' s)
unfolding split HasOne extend
split-HasOne [] = (tt, tt)
split-HasOne (c ∷ s) = elim (Bool-cases (c == b',')) [
  | inl e ↦ rw e (tt, split-HasOne s)
  | inr e ↦ rw e (extend-HasOne c (split b',' s) (λ comma. ground arith) (split-HasOne s))
]

split_one : (s : Bytes) → HasOne s → split b',' s ≡ s ∷ []
unfolding split HasOne
split_one [] h = refl
split_one (c ∷ s) h = ground (arith, split_one s h.1)

urls_of-parts : (parts : List Bytes) → All HasOne parts → urls_of parts ≡ trimmed parts
unfolding urls_of trimmed
urls_of-parts [] h = refl
urls_of-parts (part ∷ parts) (h, hs) = elim (Bool-cases (bytes_eq (trim_space part) [])) [
  | inl e ↦ rw (split_one part h, trimmed, e) (urls_of-parts parts hs)
  | inr e ↦
      rw (split_one part h, trimmed, e) (ap (λ us. trim_space part ∷ us) (urls_of-parts parts hs))
]

urls_of-append : (xs ys : List Bytes) → urls_of (xs ++ ys) ≡ urls_of xs ++ urls_of ys
unfolding urls_of
urls_of-append [] ys = refl
urls_of-append (x ∷ xs) ys =
    ground
      (arith, urls_of-append xs ys, append_assoc (trimmed (split b',' x)) (urls_of xs) (urls_of ys))

trimmed-filled : (parts : List Bytes) → All (λ u. u ≢ []) (trimmed parts)
unfolding trimmed
trimmed-filled [] = tt
trimmed-filled (part ∷ parts) =
    ground (arith, trimmed-filled parts, bytes_eq_iff (trim_space part) [])

append-filled :
    (xs ys : List Bytes)
    → All (λ u. u ≢ []) xs
    → All (λ u. u ≢ []) ys
    → All (λ u. u ≢ []) (xs ++ ys)
append-filled [] ys h k = k
append-filled (x ∷ xs) ys (n, h) k = (n, append-filled xs ys h k)

urls_of-filled : (raws : List Bytes) → All (λ u. u ≢ []) (urls_of raws)
unfolding urls_of
urls_of-filled [] = tt
urls_of-filled (raw ∷ raws) =
    append-filled (trimmed (split b',' raw)) (urls_of raws) (trimmed-filled (split b',' raw))
      (urls_of-filled raws)

-- The URLs of the environment's list stand behind those of the flags, and its parts are not split any
-- further. No URL that the server is given is empty.
pub webhook_urls_lem :
    (flag_urls : List Bytes) (env : Bytes)
    → (webhook_urls flag_urls env ≡ urls_of flag_urls ++ trimmed (split b',' env))
      × All (λ u. u ≢ []) (webhook_urls flag_urls env)
unfolding webhook_urls
webhook_urls_lem flag_urls env = (
  urls_of-append flag_urls (split b',' env)
      ∙ ap (λ us. urls_of flag_urls ++ us) (urls_of-parts (split b',' env) (split-HasOne env)),
  urls_of-filled (flag_urls ++ split b',' env),
)
