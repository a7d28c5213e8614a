-- ===== src/Regex/Utf16/Strings.antt =====
-- internal/regex/regex.go: strings from UTF-16 units.
use jsonata_go.Prelude.{
  ℕ, zero, suc, ◌+◌, ◌-◌, ◌≡◌, refl, Bool, true, false, List, [], ◌∷◌, Option, none, some, Text,
  if◌then◌else◌, arith, inl, All,
}
use jsonata_go.Utf8.{decode_rune}
use jsonata_go.Syntax.Quoted.{is_high, is_low, decode_units, encode_runes, has_unpaired_surrogate}
use jsonata_go.Syntax.Quoted.Surrogates.{Scalar, decode-units_of}
use jsonata_go.Regex.{runes_from}
use jsonata_go.Regex.Utf16.{first_unpaired, utf16_string, utf16_units}

decode_rune-Scalar : (text : Text) → Scalar (decode_rune text).0
unfolding decode_rune
decode_rune-Scalar [] = ground arith
decode_rune-Scalar (b ∷ []) = ground arith
decode_rune-Scalar (b ∷ c ∷ []) = ground arith
decode_rune-Scalar (b ∷ c ∷ d ∷ []) = ground arith
decode_rune-Scalar (b ∷ c ∷ d ∷ e ∷ bs) = ground arith

runes_from-Scalar : (skip : ℕ) (text : Text) → All Scalar (runes_from skip text)
unfolding runes_from
runes_from-Scalar skip [] = tt
runes_from-Scalar (suc skip) (c ∷ cs) = runes_from-Scalar skip cs
runes_from-Scalar zero (c ∷ cs) =
    (decode_rune-Scalar (c ∷ cs), runes_from-Scalar ((decode_rune (c ∷ cs)).1 - 1) cs)

agree :
    (high paired low a b : Bool) (index : ℕ) (o p : Option ℕ)
    → (a ≡ false → o ≡ none)
    → (b ≡ false → p ≡ none)
    → (if high then (if paired then a else true) else if low then true else b) ≡ false
    → (if high then (if paired then o else some index) else if low then some index else p) ≡ none
agree true true low a b index o p behind alone h = behind h
agree true false low a b index o p behind alone h = cc
agree false paired true a b index o p behind alone h = cc
agree false paired false a b index o p behind alone h = alone h

first_unpaired-none :
    (index : ℕ) (units : List ℕ)
    → has_unpaired_surrogate units ≡ false
    → first_unpaired index units ≡ none
unfolding has_unpaired_surrogate first_unpaired
first_unpaired-none index [] h = refl
first_unpaired-none index (unit ∷ []) h = rw h refl
first_unpaired-none index (unit ∷ next ∷ units) h =
    agree (is_high unit) (is_low next) (is_low unit) (has_unpaired_surrogate units)
      (has_unpaired_surrogate (next ∷ units)) index (first_unpaired (index + 2) units)
      (first_unpaired (index + 1) (next ∷ units)) (first_unpaired-none (index + 2) units)
      (first_unpaired-none (index + 1) (next ∷ units)) h

string-no_error :
    (units runes : List ℕ)
    → first_unpaired 0 units ≡ none
    → decode_units units ≡ runes
    → utf16_string units ≡ inl (encode_runes runes)
unfolding utf16_string
string-no_error units runes e d = rw (e, d) refl

-- UTF16String gives an error for no string's UTF16Units: they lead back to the string's runes as
-- UTF-8. The text may hold bytes that are no UTF-8; each is then the rune U+FFFD.
pub utf16_string-utf16_units :
    (text : Text) → utf16_string (utf16_units text) ≡ inl (encode_runes (runes_from 0 text))
unfolding utf16_units
utf16_string-utf16_units text =
    let (decoded, paired) = decode-units_of (runes_from 0 text) (runes_from-Scalar 0 text) in
    string-no_error (utf16_units text) (runes_from 0 text)
      (first_unpaired-none 0 (utf16_units text) paired) decoded
