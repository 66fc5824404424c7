-- ===== src/Samples/Codec.antt =====
-- An encoder and a decoder that know one row, of an output at one time.
use mathlib.Core.Path.{subst}
use mathlib.Core.Option.{some-injective}
use cternal.Std.Trim.{trim_space-brackets}
use cternal.Prelude.{
  ℕ, zero, suc, ◌<◌, ◌≤◌, ◌≡◌, ◌≢◌, All, ◌++◌, refl, ap, sym, inl, inr, arith, Bool, Bool-cases,
  true, false, ◌&&◌, some, none, [], ◌∷◌, Bytes, codes, bytes_eq, bytes_eq_iff, ◌==◌, length,
  if◌then◌else◌,
}
use cternal.Prelude.Int.{ℤ, pos, negsuc}
use cternal.Std.{trim_space, is_space}
use cternal.Std.Scan.{drop_cr}
use cternal.Recorder.{EventType}
use cternal.Recorder.Cast.{Header, Json}
use cternal.Play.{Decoder, scanner_limit}
use cternal.Play.Readback.{IsJsonText, Decodes}
use cternal.Samples.{floats}

unfoldable pub is_at : ℕ → ℤ → Bool
is_at time (pos n) = n == time
is_at time (negsuc n) = false

unfoldable pub is_known : ℕ → Bytes → ℤ → EventType → Bytes → Bool
unfolding is_at
is_known time known t typ content =
    is_at time t && bytes_eq typ (codes "o") && bytes_eq content known

header_text : IsJsonText (codes "{}")
unfolding drop_cr trim_space is_space
header_text = record {
  no_break = (λ e. omega arith, (λ e. omega arith, tt));
  no_return = refl;
  trimmed = refl;
  not_empty = refl;
}

pub brackets : IsJsonText (codes "[]")
unfolding drop_cr trim_space is_space
brackets = record {
  no_break = (λ e. omega arith, (λ e. omega arith, tt));
  no_return = refl;
  trimmed = refl;
  not_empty = refl;
}

known-cases :
    (time : ℕ) (known : Bytes) (t : ℤ) (typ : EventType) (content : Bytes)
    → is_known time known t typ content ≡ true
    → (t ≡ pos time) × (typ ≡ codes "o") × (content ≡ known)
unfolding is_known is_at
known-cases time known (pos n) typ content h =
    ground (arith, bytes_eq_iff typ (codes "o"), bytes_eq_iff content known)
known-cases time known (negsuc n) typ content h = cc

abbrev pub one_decoder : ℕ → Bytes → Decoder floats
one_decoder time known = record {
  raw_messages = λ l. some (codes "t" ∷ codes "o" ∷ known ∷ []);
  number = λ s. some (pos time);
  text = λ s. some s;
}

module _ (time : ℕ) (known row : Bytes) where
  abbrev pub one_row : Json floats
  one_row = record {
    encode_header = λ h. some (codes "{}");
    encode_row = λ t typ content. if is_known time known t typ content then some row else none;
  }

  pub known_row :
      (t : ℤ) (typ : EventType) (content l : Bytes)
      → one_row.encode_row t typ content ≡ some l
      → (row ≡ l) × (t ≡ pos time) × (typ ≡ codes "o") × (content ≡ known)
  known_row t typ content l e = elim (Bool-cases (is_known time known t typ content)) [
    | inr other ↦ absurd (let e' = rw other at e in cc)
    | inl same ↦
        let (et, etyp, econtent) = known-cases time known t typ content same in
        (some-injective _ _ (rw same at e), et, etyp, econtent)
  ]

  pub short_row :
      length row < scanner_limit
      → (t : ℤ) (typ : EventType) (content l : Bytes) → one_row.encode_row t typ content ≡ some l
      → length l < scanner_limit
  short_row h t typ content l e =
      subst (λ x. length x < scanner_limit) (known_row t typ content l e).0 h

  pub one_row-Decodes : IsJsonText row → Decodes floats one_row (one_decoder time known) (λ s. s)
  one_row-Decodes text = record {
    header = λ h l e. subst IsJsonText (some-injective _ _ e) header_text;
    row = λ t typ content l e.
        let (er, et, etyp, econtent) = known_row t typ content l e in
        (
          subst IsJsonText er text,
          (
            codes "t",
            codes "o",
            known,
            refl,
            ap some (sym et),
            ap some (sym etyp),
            ap some (sym econtent),
          ),
        );
    valid_output = refl;
  }

  pub short_header :
      (h : Header floats) (l : Bytes) → one_row.encode_header h ≡ some l → length l < scanner_limit
  short_header h l e = subst (λ x. length x < scanner_limit) (some-injective _ _ e) (omega arith)

abbrev pub plain : Header floats
plain = record {
  version = pos 0;
  width = pos 80;
  height = pos 24;
  timestamp = pos 0;
  title = [];
  idle_time_limit = pos 0;
  env = none;
}

-- A row of any length
abbrev pub filler : ℕ → Bytes
filler zero = []
filler (suc n) = codes "x" ++ filler n

abbrev pub long_row : ℕ → Bytes
long_row n = b'[' ∷ (filler n ++ codes "]")

length-filler : (n : ℕ) → n ≤ length (filler n ++ codes "]")
length-filler zero = omega arith
length-filler (suc n) = omega (arith, length-filler n)

pub length-long_row : (n : ℕ) → n ≤ length (long_row n)
length-long_row n = omega (arith, length-filler n)

filler_breakless : (n : ℕ) → All (λ c. c ≢ 10) (filler n ++ codes "]")
filler_breakless zero = (λ e. omega arith, tt)
filler_breakless (suc n) = (λ e. omega arith, filler_breakless n)

drop_cr-bracket : (c : ℕ) (s : Bytes) → drop_cr (c ∷ (s ++ codes "]")) ≡ c ∷ (s ++ codes "]")
unfolding drop_cr
drop_cr-bracket c [] = refl
drop_cr-bracket c (d ∷ s) = ap (◌∷◌ c) (drop_cr-bracket d s)

pub long_row-IsJsonText : (n : ℕ) → IsJsonText (long_row n)
long_row-IsJsonText n = record {
  no_break = (λ e. omega arith, filler_breakless n);
  no_return = drop_cr-bracket b'[' (filler n);
  trimmed = trim_space-brackets (filler n);
  not_empty = refl;
}
