-- ===== src/Std/Scan.antt =====
-- A bufio.Scanner with the split function ScanLines: the lines of a text, until one does not fit the
-- scanner's buffer.
use cternal.Prelude.{
  ℕ, ◌<◌, ◌≤◌, ◌≡◌, ◌≢◌, refl, arith, Bool, Bool-cases, inl, inr, append_assoc, true, false, List,
  [], ◌∷◌, ◌++◌, Bytes, codes, Option, some, ltb, length, is_empty, if◌then◌else◌, ◌==◌, All,
}
use cternal.Std.{split}

-- The lines that were given, and whether a longer one has stopped the scanner.
pub record Scanned : Type 0 where
  pub lines : List Bytes
  pub too_long : Bool

-- A line without its carriage return.
unfoldable pub drop_cr : Bytes → Bytes
drop_cr [] = []
drop_cr (c ∷ []) = if c == 13 then [] else c ∷ []
drop_cr (c ∷ d ∷ s) = c ∷ drop_cr (d ∷ s)

-- What stands behind the last line feed is a line if it is not empty.
scan_parts : ℕ → List Bytes → Scanned
unfolding drop_cr
scan_parts limit [] = record { lines = []; too_long = false }
scan_parts limit (p ∷ []) =
    if is_empty p
    then record { lines = []; too_long = false }
    else if ltb (length p) limit
    then record { lines = drop_cr p ∷ []; too_long = false }
    else record { lines = []; too_long = true }
scan_parts limit (p ∷ q ∷ ps) =
    let rest = scan_parts limit (q ∷ ps) in
    if ltb (length p) limit
    then record rest { lines = drop_cr p ∷ rest.lines }
    else record { lines = []; too_long = true }

-- A line and its line feed have to fit a buffer of `limit` bytes.
unfoldable pub scan_lines : ℕ → Bytes → Scanned
unfolding scan_parts split
scan_lines limit text = scan_parts limit (split 10 text)

-- What can be read, and the error that ends the reading, if it is not the end.
pub record Input : Type 0 where
  pub content : Bytes
  pub read_error : Option Bytes

-- Scanner.Err behind the last line
unfoldable pub scan_error : ℕ → Input → Option Bytes
unfolding scan_lines
scan_error limit input =
    if (scan_lines limit input.content).too_long
    then some (codes "bufio.Scanner: token too long")
    else input.read_error

-- A text of lines, each with a line feed behind it.
abbrev pub unlines : List Bytes → Bytes
unlines [] = []
unlines (l ∷ ls) = l ++ 10 ∷ unlines ls

split_line : (l rest : Bytes) → All (λ c. c ≢ 10) l → split 10 (l ++ 10 ∷ rest) ≡ l ∷ split 10 rest
unfolding split
split_line [] rest h = refl
split_line (c ∷ l) rest (h, hs) = rw (split, split_line l rest hs) (ground arith)

-- A line as a scanner takes it whole.
pub record IsLine (limit : ℕ) (l : Bytes) : Type 0 where
  pub no_break : All (λ c. c ≢ 10) l
  pub no_return : drop_cr l ≡ l
  pub fits : length l < limit

split-cases : (s : Bytes) → (q : Bytes) × (qs : List Bytes) × (split 10 s ≡ q ∷ qs)
unfolding split
split-cases [] = ([], [], refl)
split-cases (c ∷ s) =
    let (q, qs, e) = split-cases s in
    elim (Bool-cases (c == 10)) [
      | inl b ↦ ([], split 10 s, rw (split, b) refl)
      | inr b ↦ (c ∷ q, qs, rw (split, b, e) refl)
    ]

pub scan_lines-line :
    (limit : ℕ) (l rest : Bytes)
    → IsLine limit l
    → scan_lines limit (l ++ 10 ∷ rest)
      ≡ record (scan_lines limit rest) { lines = l ∷ (scan_lines limit rest).lines }
unfolding scan_lines scan_parts
scan_lines-line limit l rest h =
    let (q, qs, e) = split-cases rest in
    let fits : ltb (length l) limit ≡ true = ground (arith, h.fits) in
    rw (scan_lines, split_line l rest h.no_break, e, scan_parts, fits, h.no_return) refl

pub scan_lines_too_long :
    (limit : ℕ) (l rest : Bytes)
    → All (λ c. c ≢ 10) l
    → limit ≤ length l
    → scan_lines limit (l ++ 10 ∷ rest) ≡ record { lines = []; too_long = true }
unfolding scan_lines scan_parts
scan_lines_too_long limit l rest h long =
    let (q, qs, e) = split-cases rest in
    let over : ltb (length l) limit ≡ false = ground (arith, long) in
    rw (scan_lines, split_line l rest h, e, scan_parts, over) refl

-- Lines that fit are all given, in order, and a first one that does not is an error.
pub scan_lines-unlines :
    (limit : ℕ) (ls : List Bytes)
    → All (IsLine limit) ls
    → scan_lines limit (unlines ls) ≡ record { lines = ls; too_long = false }
unfolding scan_lines scan_parts split
scan_lines-unlines limit [] h = refl
scan_lines-unlines limit (l ∷ ls) (h, hs) =
    rw (scan_lines-line limit l (unlines ls) h, scan_lines-unlines limit ls hs) refl

pub scan_lines-unlines_too_long :
    (limit : ℕ) (ls : List Bytes) (l rest : Bytes)
    → All (IsLine limit) ls
    → All (λ c. c ≢ 10) l
    → limit ≤ length l
    → scan_lines limit (unlines ls ++ (l ++ 10 ∷ rest)) ≡ record { lines = ls; too_long = true }
scan_lines-unlines_too_long limit [] l rest h b long = scan_lines_too_long limit l rest b long
scan_lines-unlines_too_long limit (k ∷ ls) l rest (h, hs) b long =
    rw (append_assoc k (10 ∷ unlines ls) (l ++ 10 ∷ rest)) (
      rw
        (
          scan_lines-line limit k (unlines ls ++ (l ++ 10 ∷ rest)) h,
          scan_lines-unlines_too_long limit ls l rest hs b long,
        )
        refl)
